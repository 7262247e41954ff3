-- ===== src/Legacy/RoundTrip.antt =====
-- `DecodeMessageVersion` on what `EncodeMessage` writes, and on a payload that is too short.
use goflow.Base.{
  ℕ, zero, suc, ◌+◌, ◌%◌, ◌^◌, ◌≤◌, ◌<◌, ◌≡◌, ◌⊎◌, inl, inr, refl, List, [], ◌∷◌, ◌++◌,
  append_assoc, append-nil, length, length-append, concat_map, replicate, All, arith, ok, le→leb,
}
use goflow.Wire.{write_u16}
use goflow.Wire.RoundTrip.{read_u8-write_u8, read_u16-write_u16, read_u32-write_u32}
use goflow.Legacy.{RecordNetFlowV5, PacketNetFlowV5, zero_record}
use goflow.Legacy.Decode.{
  decode_record, decode_records, decode_header, decode_message, decode_message_version,
}
use goflow.Legacy.Encode.{
  encode_record, encode_header, encode_message, encode_header_fields, encode_version, encode_count,
  encoded,
}
use goflow.Legacy.Widths.{RecordFits, PacketFits, cut, cut_of_fits, length-encode_record}

ruleset reads_back = (append_assoc, read_u8-write_u8, read_u16-write_u16, read_u32-write_u32)

decode_record-encode_cut :
    (r : RecordNetFlowV5) (rest : List ℕ)
    → decode_record (encode_record r ++ rest) ≡ ok (cut r, rest)
unfolding decode_record encode_record
decode_record-encode_cut r rest = simp reads_back

decode_record-encode_record :
    (r : RecordNetFlowV5) (rest : List ℕ)
    → RecordFits r
    → decode_record (encode_record r ++ rest) ≡ ok (r, rest)
decode_record-encode_record r rest f = rw (decode_record-encode_cut, cut_of_fits r f)

decode_records_step :
    (n : ℕ) (b b' rest : List ℕ) (r : RecordNetFlowV5) (rs : List RecordNetFlowV5)
    → 48 ≤ length b
    → decode_record b ≡ ok (r, b')
    → decode_records n b' ≡ ok (rs, rest)
    → decode_records (suc n) b ≡ ok (r ∷ rs, rest)
unfolding decode_records
decode_records_step n b b' rest r rs h p q = rw (le→leb 48 (length b) h, decode_records, p, q)

-- Records and fewer than 48 bytes after them, under a header that counts k records more.
pub decode_records-encode :
    (k n : ℕ) (rs : List RecordNetFlowV5) (tail : List ℕ)
    → All RecordFits rs
    → n ≡ length rs + k
    → (k ≡ 0) ⊎ (length tail < 48)
    → decode_records n (concat_map encode_record rs ++ tail)
      ≡ ok (rs ++ replicate k zero_record, tail)
decode_records-encode zero zero [] tail f e end = unfold decode_records in refl
decode_records-encode (suc k) zero [] tail f e end = absurd (omega arith)
decode_records-encode zero (suc n) [] tail f e end = absurd (omega arith)
decode_records-encode (suc k) (suc n) [] tail f e end =
    let same : n ≡ k = omega arith in rw same (unfold decode_records in ground arith)
decode_records-encode k zero (r ∷ rs) tail f e end = absurd (omega arith)
decode_records-encode k (suc n) (r ∷ rs) tail f e end =
    let rest = concat_map encode_record rs ++ tail in
    rw (append_assoc (encode_record r)) (
      decode_records_step n _ rest tail r _
        (omega (arith, length-append (encode_record r) rest, length-encode_record r))
        (decode_record-encode_record r rest f.0)
        (decode_records-encode k n rs tail f.1 (omega arith) end))

decode_header-encode_cut :
    (v : ℕ) (p : PacketNetFlowV5) (rest : List ℕ)
    → decode_header v (encode_header_fields p ++ rest)
      ≡ ok (
        record {
          version = v;
          count = encode_count p % 2 ^ 16;
          sys_uptime = p.sys_uptime % 2 ^ 32;
          unix_secs = p.unix_secs % 2 ^ 32;
          unix_n_secs = p.unix_n_secs % 2 ^ 32;
          flow_sequence = p.flow_sequence % 2 ^ 32;
          engine_type = p.engine_type % 2 ^ 8;
          engine_id = p.engine_id % 2 ^ 8;
          sampling_interval = p.sampling_interval % 2 ^ 16;
          records = [];
        },
        rest,
      )
unfolding decode_header encode_header_fields
decode_header-encode_cut v p rest = simp reads_back

decode_message_version-write_u16 :
    (b : List ℕ) → decode_message_version (write_u16 5 ++ b) ≡ decode_message 5 b
unfolding decode_message_version
decode_message_version-write_u16 b = rw (decode_message_version, read_u16-write_u16)

module _ (p : PacketNetFlowV5) (fits : PacketFits p) (version : (p.version ≡ 0) ⊎ (p.version ≡ 5))
    (count : (p.count ≡ 0) ⊎ (p.count ≡ length p.records)) where
  version_lem : encode_version p ≡ 5
  version_lem = ground arith

  count_lem : encode_count p ≡ length p.records
  count_lem = let h = fits.record_count in ground arith

  decode_header-encode_header_fields :
      (rest : List ℕ)
      → decode_header 5 (encode_header_fields p ++ rest)
        ≡ ok (record p { version = 5; count = length p.records; records = [] }, rest)
  decode_header-encode_header_fields rest = rw decode_header-encode_cut (ground (arith, count_lem))

  decode_message-encode :
      (rest : List ℕ)
      → decode_message 5 (encode_header_fields p ++ (concat_map encode_record p.records ++ rest))
        ≡ ok (record p { version = 5; count = length p.records }, rest)
  unfolding decode_message
  decode_message-encode rest = rw (
    decode_header-encode_header_fields (concat_map encode_record p.records ++ rest),
    decode_records-encode 0 (length p.records) p.records rest fits.records (omega arith) (inl refl),
    append-nil,
  )

  -- A packet whose version and count are 0 or right, and whose fields fit their widths, is encoded,
  -- and decoding the bytes gives the packet back with version 5 and the number of its records as
  -- count, and leaves the bytes that follow it.
  pub decode_message_version-encode_message :
      (rest : List ℕ)
      → (b : List ℕ) × (encode_message p ≡ encoded b)
        × (decode_message_version (b ++ rest)
            ≡ ok (record p { version = 5; count = length p.records }, rest))
  decode_message_version-encode_message rest = (
    encode_header p ++ concat_map encode_record p.records,
    (unfold encode_message in ground (arith, version_lem, count_lem)),
    (unfold encode_header in
        simp (version_lem, append_assoc)
          (rw decode_message_version-write_u16 (decode_message-encode rest))),
  )

-- A payload with the header of k records more than it holds is decoded with no error: the missing
-- records are zero.
pub decode_message-truncated :
    (k : ℕ) (p : PacketNetFlowV5) (tail : List ℕ)
    → PacketFits p
    → p.count ≡ length p.records + k
    → p.count < 2 ^ 16
    → 0 < p.count
    → length tail < 48
    → decode_message 5 (encode_header_fields p ++ (concat_map encode_record p.records ++ tail))
      ≡ ok (record p { version = 5; records = p.records ++ replicate k zero_record }, tail)
unfolding decode_message
decode_message-truncated k p tail f c lt pos short = rw decode_header-encode_cut (
    rw
      (decode_records-encode k (encode_count p % 2 ^ 16) p.records tail f.records (ground arith)
        (inr short))
      (ground arith))
