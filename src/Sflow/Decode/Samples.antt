-- ===== src/Sflow/Decode/Samples.antt =====
-- decoders/sflow/sflow.go: `DecodeSample`.
use goflow.Base.{
  ℕ, zero, suc, ◌/◌, ◌%◌, ◌^◌, List, [], ◌∷◌, Read, Result, ok, err, ◌>>=◌, pure, true, false, ◌||◌,
  unknown_format, too_large, sample_error, ltb, leb, ◌==◌, if◌then◌else◌, length, replicate, take,
  drop,
}
use goflow.Wire.{read_u32}
use goflow.Sflow.Types.{
  RecordHeader, FlowRecord, CounterRecord, zero_flow_record, zero_counter_record, SampleHeader,
  Sample, flow_sample, counter_sample, expanded_flow_sample, drop_sample,
}
use goflow.Sflow.Decode.Flow.{decode_flow_record}
use goflow.Sflow.Decode.Counters.{decode_counter_record}

unfoldable pub decode_record_header : Read RecordHeader
decode_record_header = do
  data_format ← read_u32
  record_length ← read_u32
  pure (record { data_format = data_format; length = record_length })

-- The loop over `Records[i]` for the `rounds` indices left, with the decoder of the records and the
-- value of a record that it has not reached. It stops for good where fewer than 8 bytes are left, or
-- fewer than the length of the record.
module _ {R : Type 0} (decode : RecordHeader → List ℕ → Result R) (zero_value : R) where
  abbrev pub cons_record : Result R → Result (List R) → Result (List R)
  cons_record (ok r) (ok rs) = ok (r ∷ rs)
  cons_record (ok r) (err e) = err e
  cons_record (err e) rs = err e

  -- A round after the header of the record; the first argument is the rest of the loop.
  abbrev pub record_round :
      (List ℕ → Result (List R)) → ℕ → Result (RecordHeader × List ℕ) → Result (List R)
  record_round loop rounds (err e) = err e
  record_round loop rounds (ok (header, b)) = elim (ltb (length b) header.length) [
    | true ↦ ok (replicate rounds zero_value)
    | false ↦ cons_record (decode header (take header.length b)) (loop (drop header.length b))
  ]

  unfoldable pub decode_records : ℕ → List ℕ → Result (List R)
  decode_records zero payload = ok []
  decode_records (suc rounds) payload = elim (leb 8 (length payload)) [
    | true ↦ record_round (λ b. decode_records rounds b) (suc rounds) (decode_record_header payload)
    | false ↦ ok (replicate (suc rounds) zero_value)
  ]

-- The source of a sample as one number of 8 and 24 bits, or as two numbers.
unfoldable pub decode_compact_source : SampleHeader → Read SampleHeader
decode_compact_source header = do
  source_id ← read_u32
  pure (record header { source_id_type = source_id / 2 ^ 24; source_id_value = source_id % 2 ^ 24 })

unfoldable pub decode_expanded_source : SampleHeader → Read SampleHeader
decode_expanded_source header = do
  source_type ← read_u32
  source_value ← read_u32
  pure (record header { source_id_type = source_type; source_id_value = source_value })

-- The switch on the format, for the source.
unfoldable pub decode_source : SampleHeader → Read SampleHeader
decode_source header payload =
    if header.format == 1 || header.format == 2
    then decode_compact_source header payload
    else if header.format == 3 || (header.format == 4 || header.format == 5)
    then decode_expanded_source header payload
    else err (unknown_format header.format)

-- The checks of `recordsCount` and the records. What is left of the sample's own buffer, which
-- nothing reads, is left out.
unfoldable pub decode_flow_records : ℕ → Read (List FlowRecord)
decode_flow_records count payload =
    if ltb 1000 count
    then err (too_large count)
    else elim (decode_records decode_flow_record zero_flow_record count payload) [
      | ok rs ↦ ok (rs, [])
      | err e ↦ err e
    ]

unfoldable pub decode_counter_records : ℕ → Read (List CounterRecord)
decode_counter_records count payload =
    if ltb 1000 count
    then err (too_large count)
    else elim (decode_records decode_counter_record zero_counter_record count payload) [
      | ok rs ↦ ok (rs, [])
      | err e ↦ err e
    ]

unfoldable pub decode_flow_sample : SampleHeader → Read Sample
decode_flow_sample header = do
  sampling_rate ← read_u32
  sample_pool ← read_u32
  drops ← read_u32
  input ← read_u32
  output ← read_u32
  count ← read_u32
  records ← decode_flow_records count
  pure (
      flow_sample (record {
        header = header;
        sampling_rate = sampling_rate;
        sample_pool = sample_pool;
        drops = drops;
        input = input;
        output = output;
        flow_records_count = count;
        records = records;
      }))

unfoldable pub decode_counter_sample : SampleHeader → Read Sample
decode_counter_sample header = do
  count ← read_u32
  records ← decode_counter_records count
  pure (
      counter_sample (record { header = header; counter_records_count = count; records = records }))

unfoldable pub decode_expanded_flow_sample : SampleHeader → Read Sample
decode_expanded_flow_sample header = do
  sampling_rate ← read_u32
  sample_pool ← read_u32
  drops ← read_u32
  input_if_format ← read_u32
  input_if_value ← read_u32
  output_if_format ← read_u32
  output_if_value ← read_u32
  count ← read_u32
  records ← decode_flow_records count
  pure (
      expanded_flow_sample (record {
        header = header;
        sampling_rate = sampling_rate;
        sample_pool = sample_pool;
        drops = drops;
        input_if_format = input_if_format;
        input_if_value = input_if_value;
        output_if_format = output_if_format;
        output_if_value = output_if_value;
        flow_records_count = count;
        records = records;
      }))

unfoldable pub decode_drop_sample : SampleHeader → Read Sample
decode_drop_sample header = do
  drops ← read_u32
  input ← read_u32
  output ← read_u32
  reason ← read_u32
  count ← read_u32
  records ← decode_flow_records count
  pure (
      drop_sample (record {
        header = header;
        drops = drops;
        input = input;
        output = output;
        reason = reason;
        flow_records_count = count;
        records = records;
      }))

-- The switch on the format, after the header.
unfoldable pub decode_body : SampleHeader → Read Sample
decode_body header payload =
    if header.format == 1
    then decode_flow_sample header payload
    else if header.format == 3
    then decode_expanded_flow_sample header payload
    else if header.format == 5
    then decode_drop_sample header payload
    else decode_counter_sample header payload

abbrev pub as_sample : SampleHeader → Result (Sample × List ℕ) → Result Sample
as_sample header (ok (sample, rest)) = ok sample
as_sample header (err e) = err (sample_error header.format header.sample_sequence_number e)

abbrev pub after_sequence : SampleHeader → Result (ℕ × List ℕ) → Result Sample
after_sequence header (err e) = err e
after_sequence header (ok (seq, b)) =
    let h = (record header { sample_sequence_number = seq }) in
    as_sample h ((decode_source h >>= decode_body) b)

-- `DecodeSample`; nothing reads what is left of the sample's own buffer.
unfoldable pub decode_sample : SampleHeader → List ℕ → Result Sample
decode_sample header payload = after_sequence header (read_u32 payload)
