-- ===== src/Sflow/RoundTrip/Samples.antt =====
-- Samples with their headers and records on what the encoder writes.
use goflow.Base.{
  ℕ, ◌+◌, ◌*◌, ◌/◌, ◌%◌, ◌^◌, ◌≤◌, ◌<◌, ◌≡◌, ◌⊎◌, refl, List, [], ◌∷◌, ◌++◌, append_assoc, ok,
  length, All, All-map, arith,
}
use goflow.Encoding.{EncodeResult}
use goflow.Wire.{write_u32}
use goflow.Wire.RoundTrip.{read_u32-write_u32}
use goflow.Sflow.Types.{
  FlowRecord, CounterRecord, zero_flow_record, zero_counter_record, SampleHeader, Sample,
}
use goflow.Sflow.Decode.Flow.{decode_flow_record}
use goflow.Sflow.Decode.Counters.{decode_counter_record}
use goflow.Sflow.Decode.Samples.{
  decode_source, decode_compact_source, decode_expanded_source, decode_flow_records,
  decode_counter_records, decode_body, decode_sample,
}
use goflow.Sflow.Encode.Flow.{write_u32s}
use goflow.Sflow.Encode.Samples.{
  encode_flow_record, encode_counter_record, encode_sample_header, encode_records,
}
use goflow.Sflow.RoundTrip.Xdr.{FitsWord}
use goflow.Sflow.RoundTrip.Records.{decode_records-encode_all}
use goflow.Sflow.RoundTrip.FlowRecords.{FlowRecordFits, flow_record_lem}
use goflow.Sflow.RoundTrip.Counters.{CounterRecordFits, counter_record_lem}

-- The records of a sample: at most 1000, as many as the header counts.
abbrev pub FlowRecordsFit : ℕ → List FlowRecord → Type 0
FlowRecordsFit count rs = (count ≡ length rs) × (length rs ≤ 1000) × All FlowRecordFits rs

abbrev pub CounterRecordsFit : ℕ → List CounterRecord → Type 0
CounterRecordsFit count rs = (count ≡ length rs) × (length rs ≤ 1000) × All CounterRecordFits rs

pub flow_records_lem :
    (count : ℕ) (rs : List FlowRecord)
    → FlowRecordsFit count rs
    → (b : List ℕ) × (encode_records encode_flow_record count rs
        ≡ EncodeResult.ok (write_u32 count ++ b))
      × (decode_flow_records count b ≡ ok (rs, []))
unfolding encode_records decode_flow_records
flow_records_lem count rs (e, l, f) =
    let (b, w, d) =
      decode_records-encode_all encode_flow_record decode_flow_record zero_flow_record
        (λ r. r.header) rs (All-map flow_record_lem rs f) in
    (b, rw (w, e) (ground arith), rw (e, d) (ground arith))

pub counter_records_lem :
    (count : ℕ) (rs : List CounterRecord)
    → CounterRecordsFit count rs
    → (b : List ℕ) × (encode_records encode_counter_record count rs
        ≡ EncodeResult.ok (write_u32 count ++ b))
      × (decode_counter_records count b ≡ ok (rs, []))
unfolding encode_records decode_counter_records
counter_records_lem count rs (e, l, f) =
    let (b, w, d) =
      decode_records-encode_all encode_counter_record decode_counter_record zero_counter_record
        (λ r. r.header) rs (All-map counter_record_lem rs f) in
    (b, rw (w, e) (ground arith), rw (e, d) (ground arith))

-- The source of a sample: one number of 8 and 24 bits, or two of 32 bits.
abbrev pub CompactSource : SampleHeader → Type 0
CompactSource h =
    FitsWord h.sample_sequence_number × (h.source_id_type < 2 ^ 8) × (h.source_id_value < 2 ^ 24)

abbrev pub ExpandedSource : SampleHeader → Type 0
ExpandedSource h =
    FitsWord h.sample_sequence_number × FitsWord h.source_id_type × FitsWord h.source_id_value

-- A header as the caller of `DecodeSample` has read it.
abbrev pub read_header : SampleHeader → SampleHeader
read_header h = record h { sample_sequence_number = 0; source_id_type = 0; source_id_value = 0 }

abbrev sequenced : SampleHeader → SampleHeader
sequenced h = record h { source_id_type = 0; source_id_value = 0 }

-- A sample, by what its source and its body are decoded to.
decode_sample_lem :
    (h : SampleHeader) (s : Sample) (source body : List ℕ)
    → FitsWord h.sample_sequence_number
    → decode_source (sequenced h) (source ++ body) ≡ ok (h, body)
    → decode_body h body ≡ ok (s, [])
    → decode_sample (read_header h) ((write_u32 h.sample_sequence_number ++ source) ++ body) ≡ ok s
unfolding decode_sample
decode_sample_lem h s source body f p d =
    let same : h.sample_sequence_number % 2 ^ 32 ≡ h.sample_sequence_number = omega arith in
    rw (append_assoc (write_u32 h.sample_sequence_number), read_u32-write_u32, same, p, d) refl

-- The two ways to write the source of a sample.
abbrev pub compact_bytes : SampleHeader → List ℕ
compact_bytes h =
    write_u32s ((h.source_id_type * 2 ^ 24 % 2 ^ 32 + h.source_id_value % 2 ^ 24) ∷ [])

abbrev pub expanded_bytes : SampleHeader → List ℕ
expanded_bytes h = write_u32s (h.source_id_type ∷ h.source_id_value ∷ [])

decode_compact_source-encode :
    (h : SampleHeader) (body : List ℕ)
    → CompactSource h
    → decode_compact_source (sequenced h) (compact_bytes h ++ body) ≡ ok (h, body)
unfolding decode_compact_source
decode_compact_source-encode h body f =
    let word = h.source_id_type * 2 ^ 24 % 2 ^ 32 + h.source_id_value % 2 ^ 24 in
    let high : word % 2 ^ 32 / 2 ^ 24 ≡ h.source_id_type = omega arith in
    let low : word % 2 ^ 32 % 2 ^ 24 ≡ h.source_id_value = omega arith in
    rw (append_assoc, read_u32-write_u32, high, low) refl

decode_expanded_source-encode :
    (h : SampleHeader) (body : List ℕ)
    → ExpandedSource h
    → decode_expanded_source (sequenced h) (expanded_bytes h ++ body) ≡ ok (h, body)
unfolding decode_expanded_source
decode_expanded_source-encode h body f = simp (append_assoc, read_u32-write_u32) (ground arith)

-- A sample whose source is one number.
pub compact_lem :
    (h : SampleHeader) (s : Sample) (body : List ℕ)
    → (h.format ≡ 1) ⊎ (h.format ≡ 2)
    → CompactSource h
    → decode_body h body ≡ ok (s, [])
    → (encode_sample_header h h.format
        ≡ EncodeResult.ok (write_u32 h.sample_sequence_number ++ compact_bytes h))
      × (decode_sample
            (read_header h)
            ((write_u32 h.sample_sequence_number ++ compact_bytes h) ++ body)
          ≡ ok s)
unfolding encode_sample_header decode_source
compact_lem h s body k f d = (
  ground arith,
  decode_sample_lem h s (compact_bytes h) body f.0
      (ground (arith, decode_compact_source-encode h body f)) d,
)

-- A sample whose source is two numbers.
pub expanded_lem :
    (h : SampleHeader) (s : Sample) (body : List ℕ)
    → (h.format ≡ 3) ⊎ ((h.format ≡ 4) ⊎ (h.format ≡ 5))
    → ExpandedSource h
    → decode_body h body ≡ ok (s, [])
    → (encode_sample_header h h.format
        ≡ EncodeResult.ok (write_u32 h.sample_sequence_number ++ expanded_bytes h))
      × (decode_sample
            (read_header h)
            ((write_u32 h.sample_sequence_number ++ expanded_bytes h) ++ body)
          ≡ ok s)
unfolding encode_sample_header decode_source
expanded_lem h s body k f d = (
  ground arith,
  decode_sample_lem h s (expanded_bytes h) body f.0
      (ground (arith, decode_expanded_source-encode h body f)) d,
)
