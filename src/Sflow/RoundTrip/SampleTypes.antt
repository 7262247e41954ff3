-- ===== src/Sflow/RoundTrip/SampleTypes.antt =====
-- Each type of sample on what the encoder writes.
use goflow.Base.{
  ℕ, ◌%◌, ◌^◌, ◌≡◌, ◌⊎◌, inl, inr, refl, List, [], ◌∷◌, ◌++◌, append_assoc, ok, All, arith,
}
use goflow.Encoding.{EncodeResult}
use goflow.Wire.{write_u32}
use goflow.Wire.RoundTrip.{read_u32-write_u32}
use goflow.Sflow.Types.{
  SampleHeader, FlowSample, CounterSample, ExpandedFlowSample, DropSample, flow_sample,
  counter_sample, expanded_flow_sample, drop_sample, Sample,
}
use goflow.Sflow.Decode.Samples.{
  decode_flow_records, decode_counter_records, decode_flow_sample, decode_counter_sample,
  decode_expanded_flow_sample, decode_drop_sample, decode_body, decode_sample,
}
use goflow.Sflow.Encode.Flow.{write_u32s}
use goflow.Sflow.Encode.Samples.{
  encode_sample, encode_flow_sample, encode_counter_sample, encode_expanded_flow_sample,
  encode_drop_sample,
}
use goflow.Sflow.RoundTrip.Xdr.{FitsWord}
use goflow.Sflow.RoundTrip.Samples.{
  FlowRecordsFit, CounterRecordsFit, flow_records_lem, counter_records_lem, CompactSource,
  ExpandedSource, read_header, compact_bytes, expanded_bytes, compact_lem, expanded_lem,
}

ruleset reads_back = (append_assoc, read_u32-write_u32)

-- A sample is encoded under its format and decoded back.
abbrev pub SampleReads : SampleHeader → Sample → Type 0
SampleReads h s =
    (b : List ℕ) × (encode_sample s ≡ EncodeResult.ok (b, h.format))
    × (decode_sample (read_header h) b ≡ ok s)

abbrev pub FlowSampleFits : FlowSample → Type 0
FlowSampleFits s =
    (s.header.format ≡ 1)
    × CompactSource s.header
    × All FitsWord (s.sampling_rate ∷ s.sample_pool ∷ s.drops ∷ s.input ∷ s.output ∷ [])
    × FlowRecordsFit s.flow_records_count s.records

decode_flow_sample-encode :
    (s : FlowSample) (b : List ℕ)
    → FlowSampleFits s
    → decode_flow_records s.flow_records_count b ≡ ok (s.records, [])
    → decode_flow_sample s.header (
        write_u32s (s.sampling_rate ∷ s.sample_pool ∷ s.drops ∷ s.input ∷ s.output ∷ [])
        ++ (write_u32 s.flow_records_count ++ b))
      ≡ ok (flow_sample s, [])
unfolding decode_flow_sample
decode_flow_sample-encode s b (e, src, f, rs) d =
    let (c, l, all) = rs in
    let small : s.flow_records_count % 2 ^ 32 ≡ s.flow_records_count = omega arith in
    simp (reads_back, small, d) (ground arith)

pub flow_sample_lem : (s : FlowSample) → FlowSampleFits s → SampleReads s.header (flow_sample s)
unfolding encode_sample encode_flow_sample decode_body
flow_sample_lem s f =
    let (e, src, _, rs) = f in
    let (b, w, d) = flow_records_lem s.flow_records_count s.records rs in
    let body =
      write_u32s (s.sampling_rate ∷ s.sample_pool ∷ s.drops ∷ s.input ∷ s.output ∷ [])
      ++ (write_u32 s.flow_records_count ++ b) in
    let (h, r) =
      compact_lem s.header (flow_sample s) body (inl e) src
        (ground (arith, decode_flow_sample-encode s b f d)) in
    (
      (write_u32 s.header.sample_sequence_number ++ compact_bytes s.header) ++ body,
      ground (arith, h, w),
      r,
    )

abbrev pub ExpandedFlowSampleFits : ExpandedFlowSample → Type 0
ExpandedFlowSampleFits s =
    (s.header.format ≡ 3)
    × ExpandedSource s.header
    × All FitsWord (
        s.sampling_rate ∷ s.sample_pool ∷ s.drops ∷ s.input_if_format ∷ s.input_if_value
        ∷ s.output_if_format ∷ s.output_if_value ∷ [])
    × FlowRecordsFit s.flow_records_count s.records

decode_expanded_flow_sample-encode :
    (s : ExpandedFlowSample) (b : List ℕ)
    → ExpandedFlowSampleFits s
    → decode_flow_records s.flow_records_count b ≡ ok (s.records, [])
    → decode_expanded_flow_sample s.header (
        write_u32s (
          s.sampling_rate ∷ s.sample_pool ∷ s.drops ∷ s.input_if_format ∷ s.input_if_value
          ∷ s.output_if_format ∷ s.output_if_value ∷ [])
        ++ (write_u32 s.flow_records_count ++ b))
      ≡ ok (expanded_flow_sample s, [])
unfolding decode_expanded_flow_sample
decode_expanded_flow_sample-encode s b (e, src, f, rs) d =
    let (c, l, all) = rs in
    let small : s.flow_records_count % 2 ^ 32 ≡ s.flow_records_count = omega arith in
    simp (reads_back, small, d) (ground arith)

pub expanded_flow_sample_lem :
    (s : ExpandedFlowSample)
    → ExpandedFlowSampleFits s
    → SampleReads s.header (expanded_flow_sample s)
unfolding encode_sample encode_expanded_flow_sample decode_body
expanded_flow_sample_lem s f =
    let (e, src, _, rs) = f in
    let (b, w, d) = flow_records_lem s.flow_records_count s.records rs in
    let body =
      write_u32s (
        s.sampling_rate ∷ s.sample_pool ∷ s.drops ∷ s.input_if_format ∷ s.input_if_value
        ∷ s.output_if_format ∷ s.output_if_value ∷ [])
      ++ (write_u32 s.flow_records_count ++ b) in
    let (h, r) =
      expanded_lem s.header (expanded_flow_sample s) body (inl e) src
        (ground (arith, decode_expanded_flow_sample-encode s b f d)) in
    (
      (write_u32 s.header.sample_sequence_number ++ expanded_bytes s.header) ++ body,
      ground (arith, h, w),
      r,
    )

abbrev pub DropSampleFits : DropSample → Type 0
DropSampleFits s =
    (s.header.format ≡ 5)
    × ExpandedSource s.header
    × All FitsWord (s.drops ∷ s.input ∷ s.output ∷ s.reason ∷ [])
    × FlowRecordsFit s.flow_records_count s.records

decode_drop_sample-encode :
    (s : DropSample) (b : List ℕ)
    → DropSampleFits s
    → decode_flow_records s.flow_records_count b ≡ ok (s.records, [])
    → decode_drop_sample s.header (
        write_u32s (s.drops ∷ s.input ∷ s.output ∷ s.reason ∷ [])
        ++ (write_u32 s.flow_records_count ++ b))
      ≡ ok (drop_sample s, [])
unfolding decode_drop_sample
decode_drop_sample-encode s b (e, src, f, rs) d =
    let (c, l, all) = rs in
    let small : s.flow_records_count % 2 ^ 32 ≡ s.flow_records_count = omega arith in
    simp (reads_back, small, d) (ground arith)

pub drop_sample_lem : (s : DropSample) → DropSampleFits s → SampleReads s.header (drop_sample s)
unfolding encode_sample encode_drop_sample decode_body
drop_sample_lem s f =
    let (e, src, _, rs) = f in
    let (b, w, d) = flow_records_lem s.flow_records_count s.records rs in
    let body =
      write_u32s (s.drops ∷ s.input ∷ s.output ∷ s.reason ∷ [])
      ++ (write_u32 s.flow_records_count ++ b) in
    let (h, r) =
      expanded_lem s.header (drop_sample s) body (inr (inr e)) src
        (ground (arith, decode_drop_sample-encode s b f d)) in
    (
      (write_u32 s.header.sample_sequence_number ++ expanded_bytes s.header) ++ body,
      ground (arith, h, w),
      r,
    )

abbrev pub CounterSampleFits : CounterSample → Type 0
CounterSampleFits s =
    (((s.header.format ≡ 2) × CompactSource s.header)
      ⊎ ((s.header.format ≡ 4) × ExpandedSource s.header))
    × CounterRecordsFit s.counter_records_count s.records

decode_counter_sample-encode :
    (s : CounterSample) (b : List ℕ)
    → CounterSampleFits s
    → decode_counter_records s.counter_records_count b ≡ ok (s.records, [])
    → decode_counter_sample s.header (write_u32 s.counter_records_count ++ b)
      ≡ ok (counter_sample s, [])
unfolding decode_counter_sample
decode_counter_sample-encode s b (e, rs) d =
    let (c, l, all) = rs in
    let small : s.counter_records_count % 2 ^ 32 ≡ s.counter_records_count = omega arith in
    rw (read_u32-write_u32, small, d) refl

pub counter_sample_lem :
    (s : CounterSample) → CounterSampleFits s → SampleReads s.header (counter_sample s)
unfolding encode_sample encode_counter_sample decode_body
counter_sample_lem s (inl (e, src), rs) =
    let (b, w, d) = counter_records_lem s.counter_records_count s.records rs in
    let body = write_u32 s.counter_records_count ++ b in
    let (h, r) =
      compact_lem s.header (counter_sample s) body (inr e) src
        (ground (arith, decode_counter_sample-encode s b (inl (e, src), rs) d)) in
    (
      (write_u32 s.header.sample_sequence_number ++ compact_bytes s.header) ++ body,
      ground (arith, h, w),
      r,
    )
counter_sample_lem s (inr (e, src), rs) =
    let (b, w, d) = counter_records_lem s.counter_records_count s.records rs in
    let body = write_u32 s.counter_records_count ++ b in
    let (h, r) =
      expanded_lem s.header (counter_sample s) body (inr (inl e)) src
        (ground (arith, decode_counter_sample-encode s b (inr (e, src), rs) d)) in
    (
      (write_u32 s.header.sample_sequence_number ++ expanded_bytes s.header) ++ body,
      ground (arith, h, w),
      r,
    )
