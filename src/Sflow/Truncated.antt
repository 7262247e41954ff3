-- ===== src/Sflow/Truncated.antt =====
-- Payloads that are cut short: samples with fewer records than their count, and sampled headers with
-- fewer bytes than their length.
use goflow.Base.{
  ℕ, zero, suc, ◌+◌, ◌%◌, ◌^◌, ◌≤◌, ◌<◌, ◌≡◌, refl, List, [], ◌∷◌, ◌++◌, append_assoc, ok, length,
  length-append, All, All-map, arith, replicate, leb, false, Result,
}
use goflow.Encoding.{EncodeResult, encode_all}
use goflow.Wire.RoundTrip.{read_u32-write_u32}
use goflow.Sflow.FlowTypes.{SampledHeader, sampled_header}
use goflow.Sflow.Types.{RecordHeader, FlowRecord, zero_flow_record}
use goflow.Sflow.Xdr.{write_xdr_padding, xdr_padding}
use goflow.Sflow.Decode.FlowCases.{read_header_data, decode_sampled_header}
use goflow.Sflow.Decode.Flow.{decode_flow_record}
use goflow.Sflow.Decode.Samples.{decode_records, decode_flow_records}
use goflow.Sflow.Encode.Flow.{encode_sampled_header, write_u32s}
use goflow.Sflow.Encode.Samples.{encode_flow_record}
use goflow.Sflow.RoundTrip.Xdr.{FitsWord, length-write_xdr_padding}
use goflow.Sflow.RoundTrip.Records.{IsCoded, decode_records_step}
use goflow.Sflow.RoundTrip.FlowRecords.{FlowRecordFits, flow_record_lem}

module _ {R : Type 0} (encode : R → EncodeResult (List ℕ))
    (decode : RecordHeader → List ℕ → Result R) (zero_value : R) (header : R → RecordHeader) where
  -- Fewer than 8 bytes hold no record.
  decode_records_short :
      (k : ℕ) (tail : List ℕ)
      → length tail < 8
      → decode_records decode zero_value k tail ≡ ok (replicate k zero_value)
  unfolding decode_records
  decode_records_short zero tail h = refl
  decode_records_short (suc k) tail h =
      let short : leb 8 (length tail) ≡ false = ground arith in rw (short, decode_records) refl

  decode_records-encode_some :
      (k : ℕ) (rs : List R) (tail : List ℕ)
      → All (IsCoded encode decode zero_value header) rs
      → length tail < 8
      → (b : List ℕ) × (encode_all encode rs ≡ EncodeResult.ok b)
        × (decode_records decode zero_value (length rs + k) (b ++ tail)
            ≡ ok (rs ++ replicate k zero_value))
  unfolding encode_all
  decode_records-encode_some k [] tail h short =
      let zero_left : 0 + k ≡ k = omega arith in
      ([], refl, rw zero_left (decode_records_short k tail short))
  decode_records-encode_some k (r ∷ rs) tail h short =
      let (b, e, d) = decode_records-encode_some k rs tail h.1 short in
      let c = h.0 in
      let start = write_u32s ((header r).data_format ∷ length c.payload ∷ []) in
      let next : suc (length rs) + k ≡ suc (length rs + k) = omega arith in
      (
        (start ++ c.payload) ++ b,
        rw (c.written, encode_all, e) refl,
        rw
            (
              next,
              append_assoc (start ++ c.payload) b tail,
              append_assoc start c.payload (b ++ tail),
            )
            (decode_records_step encode decode zero_value header (length rs + k) r
              (rs ++ replicate k zero_value) (b ++ tail) c d),
      )

-- A payload of encoded flow records that fit the wire, with fewer than 8 bytes behind them and a count
-- that is larger by k and at most 1000, is decoded with no error: the k missing records are zero.
pub decode_flow_records-truncated :
    (k : ℕ) (rs : List FlowRecord) (tail : List ℕ)
    → All FlowRecordFits rs
    → length rs + k ≤ 1000
    → length tail < 8
    → (b : List ℕ) × (encode_all encode_flow_record rs ≡ EncodeResult.ok b)
      × (decode_flow_records (length rs + k) (b ++ tail)
          ≡ ok (rs ++ replicate k zero_flow_record, []))
unfolding decode_flow_records
decode_flow_records-truncated k rs tail f limit short =
    let (b, e, d) =
      decode_records-encode_some encode_flow_record decode_flow_record zero_flow_record
        (λ r. r.header) k rs tail (All-map flow_record_lem rs f) short in
    (b, e, ground (arith, d))

read_header_data_short : (n : ℕ) (b : List ℕ) → length b < n → read_header_data n b ≡ ok (b, [])
unfolding read_header_data
read_header_data_short n b h = ground arith

-- A sampled header whose length is larger than the number of its bytes and of the padding is written
-- with that padding, and decoded back with the padding as part of its bytes.
pub decode_sampled_header-truncated :
    (h : SampledHeader)
    → All FitsWord (h.protocol ∷ h.frame_length ∷ h.stripped ∷ h.original_length ∷ [])
    → length h.header_data + xdr_padding h.original_length < h.original_length
    → decode_sampled_header (encode_sampled_header h)
      ≡ ok (
        sampled_header
            (record h { header_data = h.header_data ++ write_xdr_padding h.original_length }),
        [],
      )
unfolding decode_sampled_header encode_sampled_header
decode_sampled_header-truncated h f short =
    let zeros = length-write_xdr_padding h.original_length in
    let all = length-append h.header_data (write_xdr_padding h.original_length) in
    let small : h.original_length % 2 ^ 32 ≡ h.original_length = omega arith in
    simp
      (
        append_assoc,
        read_u32-write_u32,
        small,
        read_header_data_short h.original_length
            (h.header_data ++ write_xdr_padding h.original_length) (omega arith),
      )
      (ground arith)
