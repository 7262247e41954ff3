-- ===== src/Sflow/RoundTrip/Records.antt =====
-- Records with their headers, and the loop of `DecodeSample` over them, on what the encoder writes.
use goflow.Base.{
  ℕ, suc, ◌≤◌, ◌<◌, ◌≡◌, refl, List, [], ◌∷◌, ◌++◌, append_assoc, Result, ok, length, length-append,
  take, drop, take-append, drop-append, All, arith, le→leb, ltb, false,
}
use goflow.Encoding.{EncodeResult, encode_all}
use goflow.Wire.RoundTrip.{read_u32-write_u32}
use goflow.Sflow.Types.{RecordHeader}
use goflow.Sflow.Decode.Samples.{decode_record_header, decode_records}
use goflow.Sflow.Encode.Flow.{write_u32s}
use goflow.Sflow.Encode.Samples.{or_default, encode_with_header}
use goflow.Sflow.RoundTrip.Xdr.{FitsWord, length-write_u32s}

-- The number of bytes of an encoding.
abbrev pub encoded_length : EncodeResult (List ℕ) → ℕ
encoded_length (EncodeResult.ok b) = length b
encoded_length (EncodeResult.err e) = 0

-- What a record header says of a payload that follows it.
abbrev pub HeaderCounts : RecordHeader → List ℕ → Type 0
HeaderCounts h payload = FitsWord h.data_format × FitsWord h.length × (h.length ≡ length payload)

-- A header that has a format keeps it.
pub encode_with_header_lem :
    (d k : ℕ) (payload : List ℕ)
    → 0 < k
    → encode_with_header (or_default d k) payload
      ≡ EncodeResult.ok (write_u32s (k ∷ length payload ∷ []) ++ payload)
unfolding encode_with_header
encode_with_header_lem d k payload pos = ground arith

module _ {R : Type 0} (encode : R → EncodeResult (List ℕ))
    (decode : RecordHeader → List ℕ → Result R) (zero_value : R) (header : R → RecordHeader) where
  -- The encoder of a record writes a header and a payload, which the decoder turns into the record.
  pub record IsCoded (r : R) : Type 0 where
    pub payload : List ℕ
    pub written :
        encode r
        ≡ EncodeResult.ok (write_u32s ((header r).data_format ∷ length payload ∷ []) ++ payload)
    pub counts : HeaderCounts (header r) payload
    pub read : decode (header r) payload ≡ ok r

  decode_record_header-encode :
      (h : RecordHeader) (payload rest : List ℕ)
      → HeaderCounts h payload
      → decode_record_header (write_u32s (h.data_format ∷ length payload ∷ []) ++ rest)
        ≡ ok (h, rest)
  unfolding decode_record_header
  decode_record_header-encode h payload rest c =
      simp (append_assoc, read_u32-write_u32) (ground arith)

  -- One round of the loop, by the results of its parts.
  decode_records_round :
      (n : ℕ) (b b' : List ℕ) (h : RecordHeader) (r : R) (rs : List R)
      → 8 ≤ length b
      → decode_record_header b ≡ ok (h, b')
      → h.length ≤ length b'
      → decode h (take h.length b') ≡ ok r
      → decode_records decode zero_value n (drop h.length b') ≡ ok rs
      → decode_records decode zero_value (suc n) b ≡ ok (r ∷ rs)
  unfolding decode_records
  decode_records_round n b b' h r rs enough p le q t =
      let more : ltb (length b') h.length ≡ false = ground arith in
      rw (le→leb 8 (length b) enough, decode_records, p) (ground (arith, more, q, t))

  -- One round over a record that is all there.
  pub decode_records_step :
      (n : ℕ) (r : R) (rs : List R) (rest : List ℕ) (c : IsCoded r)
      → decode_records decode zero_value n rest ≡ ok rs
      → decode_records decode zero_value
          (suc n)
          (write_u32s ((header r).data_format ∷ length c.payload ∷ []) ++ (c.payload ++ rest))
        ≡ ok (r ∷ rs)
  decode_records_step n r rs rest c h =
      let h' = header r in
      let size = length-write_u32s (h'.data_format ∷ length c.payload ∷ []) in
      let start = write_u32s (h'.data_format ∷ length c.payload ∷ []) in
      let all = length-append start (c.payload ++ rest) in
      let l : length c.payload ≡ h'.length = let k = c.counts.2 in omega arith in
      let both = length-append c.payload rest in
      decode_records_round n _ (c.payload ++ rest) h' r rs (omega arith)
        (decode_record_header-encode h' c.payload (c.payload ++ rest) c.counts) (omega arith)
        (rw (take-append h'.length c.payload rest l) c.read)
        (rw (drop-append h'.length c.payload rest l) h)

  -- The records of a sample are written one after the other, and the loop reads them back.
  pub decode_records-encode_all :
      (rs : List R)
      → All IsCoded rs
      → (b : List ℕ) × (encode_all encode rs ≡ EncodeResult.ok b)
        × (decode_records decode zero_value (length rs) b ≡ ok rs)
  unfolding encode_all
  decode_records-encode_all [] h = ([], refl, unfold decode_records in refl)
  decode_records-encode_all (r ∷ rs) h =
      let (b, e, d) = decode_records-encode_all rs h.1 in
      let c = h.0 in
      (
        (write_u32s ((header r).data_format ∷ length c.payload ∷ []) ++ c.payload) ++ b,
        rw (c.written, e) refl,
        rw (append_assoc (write_u32s ((header r).data_format ∷ length c.payload ∷ [])) c.payload b)
            (decode_records_step (length rs) r rs b c d),
      )
