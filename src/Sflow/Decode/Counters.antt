-- ===== src/Sflow/Decode/Counters.antt =====
-- decoders/sflow/sflow.go: `DecodeCounterRecord`, with a function for each case of its switch.
use goflow.Base.{ℕ, List, Read, Result, ok, err, ◌>>=◌, pure, record_error, ◌==◌, if◌then◌else◌}
use goflow.Wire.{read_u32, read_u64}
use goflow.Sflow.CounterTypes.{CounterData, if_counters, ethernet_counters, raw_counters}
use goflow.Sflow.Types.{RecordHeader, CounterRecord}
use goflow.Sflow.Decode.Format.{data_format_enterprise, data_format_format}

unfoldable pub decode_if_counters : Read CounterData
decode_if_counters = do
  if_index ← read_u32
  if_type ← read_u32
  if_speed ← read_u64
  if_direction ← read_u32
  if_status ← read_u32
  if_in_octets ← read_u64
  if_in_ucast_pkts ← read_u32
  if_in_multicast_pkts ← read_u32
  if_in_broadcast_pkts ← read_u32
  if_in_discards ← read_u32
  if_in_errors ← read_u32
  if_in_unknown_protos ← read_u32
  if_out_octets ← read_u64
  if_out_ucast_pkts ← read_u32
  if_out_multicast_pkts ← read_u32
  if_out_broadcast_pkts ← read_u32
  if_out_discards ← read_u32
  if_out_errors ← read_u32
  if_promiscuous_mode ← read_u32
  pure (
      if_counters (record {
        if_index = if_index;
        if_type = if_type;
        if_speed = if_speed;
        if_direction = if_direction;
        if_status = if_status;
        if_in_octets = if_in_octets;
        if_in_ucast_pkts = if_in_ucast_pkts;
        if_in_multicast_pkts = if_in_multicast_pkts;
        if_in_broadcast_pkts = if_in_broadcast_pkts;
        if_in_discards = if_in_discards;
        if_in_errors = if_in_errors;
        if_in_unknown_protos = if_in_unknown_protos;
        if_out_octets = if_out_octets;
        if_out_ucast_pkts = if_out_ucast_pkts;
        if_out_multicast_pkts = if_out_multicast_pkts;
        if_out_broadcast_pkts = if_out_broadcast_pkts;
        if_out_discards = if_out_discards;
        if_out_errors = if_out_errors;
        if_promiscuous_mode = if_promiscuous_mode;
      }))

unfoldable pub decode_ethernet_counters : Read CounterData
decode_ethernet_counters = do
  dot3_stats_alignment_errors ← read_u32
  dot3_stats_fcs_errors ← read_u32
  dot3_stats_single_collision_frames ← read_u32
  dot3_stats_multiple_collision_frames ← read_u32
  dot3_stats_sqe_test_errors ← read_u32
  dot3_stats_deferred_transmissions ← read_u32
  dot3_stats_late_collisions ← read_u32
  dot3_stats_excessive_collisions ← read_u32
  dot3_stats_internal_mac_transmit_errors ← read_u32
  dot3_stats_carrier_sense_errors ← read_u32
  dot3_stats_frame_too_longs ← read_u32
  dot3_stats_internal_mac_receive_errors ← read_u32
  dot3_stats_symbol_errors ← read_u32
  pure (
      ethernet_counters (record {
        dot3_stats_alignment_errors = dot3_stats_alignment_errors;
        dot3_stats_fcs_errors = dot3_stats_fcs_errors;
        dot3_stats_single_collision_frames = dot3_stats_single_collision_frames;
        dot3_stats_multiple_collision_frames = dot3_stats_multiple_collision_frames;
        dot3_stats_sqe_test_errors = dot3_stats_sqe_test_errors;
        dot3_stats_deferred_transmissions = dot3_stats_deferred_transmissions;
        dot3_stats_late_collisions = dot3_stats_late_collisions;
        dot3_stats_excessive_collisions = dot3_stats_excessive_collisions;
        dot3_stats_internal_mac_transmit_errors = dot3_stats_internal_mac_transmit_errors;
        dot3_stats_carrier_sense_errors = dot3_stats_carrier_sense_errors;
        dot3_stats_frame_too_longs = dot3_stats_frame_too_longs;
        dot3_stats_internal_mac_receive_errors = dot3_stats_internal_mac_receive_errors;
        dot3_stats_symbol_errors = dot3_stats_symbol_errors;
      }))

-- A record that is not known: the bytes are copied and stay in the buffer.
abbrev pub decode_raw_counters : Read CounterData
decode_raw_counters payload = ok (raw_counters payload, payload)

-- The switch on the format.
unfoldable pub decode_counter_data : ℕ → Read CounterData
decode_counter_data format =
    if format == 1
    then decode_if_counters
    else if format == 2
    then decode_ethernet_counters
    else decode_raw_counters

abbrev as_record : RecordHeader → Result (CounterData × List ℕ) → Result CounterRecord
as_record header (ok (content, rest)) = ok (record { header = header; record_data = content })
as_record header (err e) = err (record_error header.data_format e)

-- `DecodeCounterRecord`; nothing reads what is left of the record's own buffer.
unfoldable pub decode_counter_record : RecordHeader → List ℕ → Result CounterRecord
decode_counter_record header payload =
    let format = header.data_format in
    as_record header (
      if data_format_enterprise format == 0
      then decode_counter_data (data_format_format format) payload
      else decode_raw_counters payload)
