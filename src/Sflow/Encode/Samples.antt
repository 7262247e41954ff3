-- ===== src/Sflow/Encode/Samples.antt =====
-- decoders/sflow/encode.go: records with their headers, samples, and `EncodeMessage`. A packet is never
-- nil here.
use goflow.Base.{ℕ, ◌+◌, ◌*◌, ◌%◌, ◌^◌, List, [], ◌∷◌, ◌++◌, not, ◌||◌, ◌==◌, if◌then◌else◌, length}
use goflow.Encoding.{
  EncodeResult, ok, err, ◌>>=◌, ◌>>◌, guard, encode_all, unsupported_version, ip_length_mismatch,
  samples_count_mismatch, records_count_mismatch, format_not_set, invalid_format,
  unknown_sample_format,
}
use goflow.Wire.{write_u32}
use goflow.Sflow.Types.{
  FlowRecord, CounterRecord, SampleHeader, FlowSample, CounterSample, ExpandedFlowSample,
  DropSample, Sample, flow_sample, counter_sample, expanded_flow_sample, drop_sample, raw_sample,
  Packet,
}
use goflow.Sflow.Encode.Flow.{
  write_u32s, guessed_ip_version, ip_length_fits, encode_flow_data, flow_format,
}
use goflow.Sflow.Encode.Counters.{encode_counter_data, counter_format}

-- `if n == 0 { n = d }`
abbrev pub or_default : ℕ → ℕ → ℕ
or_default d n = if n == 0 then d else n

-- The end of `encodeFlowRecord` and `encodeCounterRecord`, behind their switch.
unfoldable pub encode_with_header : ℕ → List ℕ → EncodeResult (List ℕ)
encode_with_header data_format payload = do
  guard (not (data_format == 0)) format_not_set
  ok (write_u32s (data_format ∷ length payload ∷ []) ++ payload)

unfoldable pub encode_flow_record : FlowRecord → EncodeResult (List ℕ)
encode_flow_record r = do
  payload ← encode_flow_data r.record_data
  encode_with_header (or_default (flow_format r.record_data) r.header.data_format) payload

unfoldable pub encode_counter_record : CounterRecord → EncodeResult (List ℕ)
encode_counter_record r = do
  payload ← encode_counter_data r.record_data
  encode_with_header (or_default (counter_format r.record_data) r.header.data_format) payload

-- The bits of the type and of the value do not overlap.
unfoldable pub encode_sample_header : SampleHeader → ℕ → EncodeResult (List ℕ)
encode_sample_header h format =
    if format == 1 || format == 2
    then ok (
        write_u32s (
          h.sample_sequence_number
          ∷ (h.source_id_type * 2 ^ 24 % 2 ^ 32 + h.source_id_value % 2 ^ 24)
          ∷ []))
    else if format == 3 || (format == 4 || format == 5)
    then ok (write_u32s (h.sample_sequence_number ∷ h.source_id_type ∷ h.source_id_value ∷ []))
    else err (unknown_sample_format format)

-- The count of records, with its check, and the records.
unfoldable pub encode_records {ℓ} :
    {R : Type ℓ} → (R → EncodeResult (List ℕ)) → ℕ → List R → EncodeResult (List ℕ)
encode_records encode count records = do
  let records_count = or_default (length records % 2 ^ 32) count
  guard (records_count == length records) records_count_mismatch
  bytes ← encode_all encode records
  ok (write_u32 records_count ++ bytes)

unfoldable pub encode_flow_sample : FlowSample → ℕ → EncodeResult (List ℕ)
encode_flow_sample s format = do
  guard (format == 1) (invalid_format format)
  header ← encode_sample_header s.header format
  records ← encode_records encode_flow_record s.flow_records_count s.records
  ok (
      header
      ++ (write_u32s (s.sampling_rate ∷ s.sample_pool ∷ s.drops ∷ s.input ∷ s.output ∷ [])
          ++ records))

unfoldable pub encode_expanded_flow_sample : ExpandedFlowSample → ℕ → EncodeResult (List ℕ)
encode_expanded_flow_sample s format = do
  guard (format == 3) (invalid_format format)
  header ← encode_sample_header s.header format
  records ← encode_records encode_flow_record s.flow_records_count s.records
  ok (
      header
      ++ (write_u32s (
            s.sampling_rate ∷ s.sample_pool ∷ s.drops ∷ s.input_if_format ∷ s.input_if_value
            ∷ s.output_if_format ∷ s.output_if_value ∷ [])
          ++ records))

unfoldable pub encode_drop_sample : DropSample → ℕ → EncodeResult (List ℕ)
encode_drop_sample s format = do
  guard (format == 5) (invalid_format format)
  header ← encode_sample_header s.header format
  records ← encode_records encode_flow_record s.flow_records_count s.records
  ok (header ++ (write_u32s (s.drops ∷ s.input ∷ s.output ∷ s.reason ∷ []) ++ records))

unfoldable pub encode_counter_sample : CounterSample → ℕ → EncodeResult (List ℕ)
encode_counter_sample s format = do
  guard (format == 2 || format == 4) (invalid_format format)
  header ← encode_sample_header s.header format
  records ← encode_records encode_counter_record s.counter_records_count s.records
  ok (header ++ records)

-- The payload of a sample and its format.
unfoldable pub encode_sample : Sample → EncodeResult (List ℕ × ℕ)
encode_sample (flow_sample s) = do
  let format = or_default 1 s.header.format
  payload ← encode_flow_sample s format
  ok (payload, format)
encode_sample (counter_sample s) = do
  let format = or_default 2 s.header.format
  payload ← encode_counter_sample s format
  ok (payload, format)
encode_sample (expanded_flow_sample s) = do
  let format = or_default 3 s.header.format
  payload ← encode_expanded_flow_sample s format
  ok (payload, format)
encode_sample (drop_sample s) = do
  let format = or_default 5 s.header.format
  payload ← encode_drop_sample s format
  ok (payload, format)
encode_sample (raw_sample header bytes) = do
  guard (not (header.format == 0)) format_not_set
  ok (bytes, header.format)

-- The body of the loop over `packet.Samples`.
unfoldable pub encode_next_sample : Sample → EncodeResult (List ℕ)
encode_next_sample s = do
  sample ← encode_sample s
  ok (write_u32s (sample.1 ∷ length sample.0 ∷ []) ++ sample.0)

unfoldable pub encode_message : Packet → EncodeResult (List ℕ)
encode_message p = do
  let version = or_default 5 p.version
  guard (version == 5) unsupported_version
  ip_version ← guessed_ip_version p.ip_version p.agent_ip
  guard (ip_length_fits ip_version p.agent_ip) ip_length_mismatch
  let samples_count = or_default (length p.samples % 2 ^ 32) p.samples_count
  guard (samples_count == length p.samples) samples_count_mismatch
  samples ← encode_all encode_next_sample p.samples
  ok (
      write_u32s (version ∷ ip_version ∷ [])
      ++ (p.agent_ip
          ++ (write_u32s (p.sub_agent_id ∷ p.sequence_number ∷ p.uptime ∷ samples_count ∷ [])
              ++ samples)))
