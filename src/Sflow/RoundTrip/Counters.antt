-- ===== src/Sflow/RoundTrip/Counters.antt =====
-- `DecodeCounterRecord` on what `encodeCounterRecord` writes.
use goflow.Base.{
  ℕ, ◌%◌, ◌^◌, ◌<◌, ◌≡◌, ◌≢◌, refl, List, [], ◌++◌, append_assoc, append-nil, ok, ◌≤◌, ◌⊎◌, inl,
  inr, arith,
}
use goflow.Encoding.{EncodeResult}
use goflow.Wire.RoundTrip.{read_u32-write_u32, read_u64-write_u64}
use goflow.Sflow.CounterTypes.{
  CounterData, IfCounters, EthernetCounters, no_counters, if_counters, ethernet_counters,
  raw_counters,
}
use goflow.Sflow.Decode.Counters.{
  decode_if_counters, decode_ethernet_counters, decode_counter_data, decode_counter_record,
}
use goflow.Sflow.Types.{RecordHeader, CounterRecord, zero_counter_record}
use goflow.Sflow.Decode.Format.{data_format_enterprise, data_format_format}
use goflow.Sflow.Encode.Samples.{encode_counter_record}
use goflow.Sflow.RoundTrip.Xdr.{FitsWord}
use goflow.Sflow.RoundTrip.Records.{encoded_length, IsCoded, encode_with_header_lem}
use goflow.Sflow.Encode.Counters.{encode_if_counters, encode_ethernet_counters, encode_counter_data}

pub record IfCountersFit (c : IfCounters) : Type 0 where
  pub if_index : c.if_index < 2 ^ 32
  pub if_type : c.if_type < 2 ^ 32
  pub if_speed : c.if_speed < 2 ^ 64
  pub if_direction : c.if_direction < 2 ^ 32
  pub if_status : c.if_status < 2 ^ 32
  pub if_in_octets : c.if_in_octets < 2 ^ 64
  pub if_in_ucast_pkts : c.if_in_ucast_pkts < 2 ^ 32
  pub if_in_multicast_pkts : c.if_in_multicast_pkts < 2 ^ 32
  pub if_in_broadcast_pkts : c.if_in_broadcast_pkts < 2 ^ 32
  pub if_in_discards : c.if_in_discards < 2 ^ 32
  pub if_in_errors : c.if_in_errors < 2 ^ 32
  pub if_in_unknown_protos : c.if_in_unknown_protos < 2 ^ 32
  pub if_out_octets : c.if_out_octets < 2 ^ 64
  pub if_out_ucast_pkts : c.if_out_ucast_pkts < 2 ^ 32
  pub if_out_multicast_pkts : c.if_out_multicast_pkts < 2 ^ 32
  pub if_out_broadcast_pkts : c.if_out_broadcast_pkts < 2 ^ 32
  pub if_out_discards : c.if_out_discards < 2 ^ 32
  pub if_out_errors : c.if_out_errors < 2 ^ 32
  pub if_promiscuous_mode : c.if_promiscuous_mode < 2 ^ 32

abbrev cut_if_counters : IfCounters → IfCounters
cut_if_counters c = record {
  if_index = c.if_index % 2 ^ 32;
  if_type = c.if_type % 2 ^ 32;
  if_speed = c.if_speed % 2 ^ 64;
  if_direction = c.if_direction % 2 ^ 32;
  if_status = c.if_status % 2 ^ 32;
  if_in_octets = c.if_in_octets % 2 ^ 64;
  if_in_ucast_pkts = c.if_in_ucast_pkts % 2 ^ 32;
  if_in_multicast_pkts = c.if_in_multicast_pkts % 2 ^ 32;
  if_in_broadcast_pkts = c.if_in_broadcast_pkts % 2 ^ 32;
  if_in_discards = c.if_in_discards % 2 ^ 32;
  if_in_errors = c.if_in_errors % 2 ^ 32;
  if_in_unknown_protos = c.if_in_unknown_protos % 2 ^ 32;
  if_out_octets = c.if_out_octets % 2 ^ 64;
  if_out_ucast_pkts = c.if_out_ucast_pkts % 2 ^ 32;
  if_out_multicast_pkts = c.if_out_multicast_pkts % 2 ^ 32;
  if_out_broadcast_pkts = c.if_out_broadcast_pkts % 2 ^ 32;
  if_out_discards = c.if_out_discards % 2 ^ 32;
  if_out_errors = c.if_out_errors % 2 ^ 32;
  if_promiscuous_mode = c.if_promiscuous_mode % 2 ^ 32;
}

pub record EthernetCountersFit (c : EthernetCounters) : Type 0 where
  pub dot3_stats_alignment_errors : c.dot3_stats_alignment_errors < 2 ^ 32
  pub dot3_stats_fcs_errors : c.dot3_stats_fcs_errors < 2 ^ 32
  pub dot3_stats_single_collision_frames : c.dot3_stats_single_collision_frames < 2 ^ 32
  pub dot3_stats_multiple_collision_frames : c.dot3_stats_multiple_collision_frames < 2 ^ 32
  pub dot3_stats_sqe_test_errors : c.dot3_stats_sqe_test_errors < 2 ^ 32
  pub dot3_stats_deferred_transmissions : c.dot3_stats_deferred_transmissions < 2 ^ 32
  pub dot3_stats_late_collisions : c.dot3_stats_late_collisions < 2 ^ 32
  pub dot3_stats_excessive_collisions : c.dot3_stats_excessive_collisions < 2 ^ 32
  pub dot3_stats_internal_mac_transmit_errors : c.dot3_stats_internal_mac_transmit_errors < 2 ^ 32
  pub dot3_stats_carrier_sense_errors : c.dot3_stats_carrier_sense_errors < 2 ^ 32
  pub dot3_stats_frame_too_longs : c.dot3_stats_frame_too_longs < 2 ^ 32
  pub dot3_stats_internal_mac_receive_errors : c.dot3_stats_internal_mac_receive_errors < 2 ^ 32
  pub dot3_stats_symbol_errors : c.dot3_stats_symbol_errors < 2 ^ 32

abbrev cut_ethernet_counters : EthernetCounters → EthernetCounters
cut_ethernet_counters c = record {
  dot3_stats_alignment_errors = c.dot3_stats_alignment_errors % 2 ^ 32;
  dot3_stats_fcs_errors = c.dot3_stats_fcs_errors % 2 ^ 32;
  dot3_stats_single_collision_frames = c.dot3_stats_single_collision_frames % 2 ^ 32;
  dot3_stats_multiple_collision_frames = c.dot3_stats_multiple_collision_frames % 2 ^ 32;
  dot3_stats_sqe_test_errors = c.dot3_stats_sqe_test_errors % 2 ^ 32;
  dot3_stats_deferred_transmissions = c.dot3_stats_deferred_transmissions % 2 ^ 32;
  dot3_stats_late_collisions = c.dot3_stats_late_collisions % 2 ^ 32;
  dot3_stats_excessive_collisions = c.dot3_stats_excessive_collisions % 2 ^ 32;
  dot3_stats_internal_mac_transmit_errors = c.dot3_stats_internal_mac_transmit_errors % 2 ^ 32;
  dot3_stats_carrier_sense_errors = c.dot3_stats_carrier_sense_errors % 2 ^ 32;
  dot3_stats_frame_too_longs = c.dot3_stats_frame_too_longs % 2 ^ 32;
  dot3_stats_internal_mac_receive_errors = c.dot3_stats_internal_mac_receive_errors % 2 ^ 32;
  dot3_stats_symbol_errors = c.dot3_stats_symbol_errors % 2 ^ 32;
}

cut_if_counters_lem : (c : IfCounters) → IfCountersFit c → cut_if_counters c ≡ c
cut_if_counters_lem c f = ground arith

cut_ethernet_counters_lem :
    (c : EthernetCounters) → EthernetCountersFit c → cut_ethernet_counters c ≡ c
cut_ethernet_counters_lem c f = ground arith

ruleset reads_back = (append_assoc, read_u32-write_u32, read_u64-write_u64)

decode_if_counters-encode_cut :
    (c : IfCounters) (rest : List ℕ)
    → decode_if_counters (encode_if_counters c ++ rest) ≡ ok (if_counters (cut_if_counters c), rest)
unfolding decode_if_counters encode_if_counters
decode_if_counters-encode_cut c rest = simp reads_back

decode_ethernet_counters-encode_cut :
    (c : EthernetCounters) (rest : List ℕ)
    → decode_ethernet_counters (encode_ethernet_counters c ++ rest)
      ≡ ok (ethernet_counters (cut_ethernet_counters c), rest)
unfolding decode_ethernet_counters encode_ethernet_counters
decode_ethernet_counters-encode_cut c rest = simp reads_back

-- Data that fits the wire, under its data format.
abbrev pub CounterDataFits : ℕ → CounterData → Type 0
CounterDataFits k no_counters = k ≢ k
CounterDataFits k (if_counters c) = (k ≡ 1) × IfCountersFit c
CounterDataFits k (ethernet_counters c) = (k ≡ 2) × EthernetCountersFit c
CounterDataFits k (raw_counters bytes) = (0 < k) × ((2 ^ 12 ≤ k) ⊎ ((k ≢ 1) × (k ≢ 2)))

abbrev header_of : ℕ → ℕ → RecordHeader
header_of k n = record { data_format = k; length = n }

-- The data is encoded, and a record with a header of this format is decoded to it.
abbrev IsRead : ℕ → CounterData → Type 0
IsRead k d =
    (b : List ℕ) × (encode_counter_data d ≡ EncodeResult.ok b)
    × ((n : ℕ)
        → decode_counter_record (header_of k n) b
          ≡ ok (record { header = header_of k n; record_data = d }))

counter_data_lem : (k : ℕ) (d : CounterData) → CounterDataFits k d → IsRead k d
unfolding encode_counter_data decode_counter_record decode_counter_data data_format_enterprise
    data_format_format
counter_data_lem k no_counters h = absurd (h refl)
counter_data_lem k (if_counters c) (e, f) = (
  encode_if_counters c,
  refl,
  λ n.
      let t : decode_if_counters (encode_if_counters c) ≡ ok (if_counters (cut_if_counters c), []) =
        rw append-nil at (decode_if_counters-encode_cut c []) in
      rw e (rw (t, cut_if_counters_lem c f) refl),
)
counter_data_lem k (ethernet_counters c) (e, f) = (
  encode_ethernet_counters c,
  refl,
  λ n.
      let t : decode_ethernet_counters (encode_ethernet_counters c)
          ≡ ok (ethernet_counters (cut_ethernet_counters c), []) =
        rw append-nil at (decode_ethernet_counters-encode_cut c []) in
      rw e (rw (t, cut_ethernet_counters_lem c f) refl),
)
counter_data_lem k (raw_counters x) (p, inl big) = (x, refl, λ n. ground arith)
counter_data_lem k (raw_counters x) (p, inr other) = (x, refl, λ n. ground arith)

-- A record whose data fits its format and whose header has the length of the encoded data.
abbrev pub CounterRecordFits : CounterRecord → Type 0
CounterRecordFits r =
    CounterDataFits r.header.data_format r.record_data
    × FitsWord r.header.data_format
    × (0 < r.header.data_format)
    × FitsWord r.header.length
    × (r.header.length ≡ encoded_length (encode_counter_data r.record_data))

pub counter_record_lem :
    (r : CounterRecord)
    → CounterRecordFits r
    → IsCoded encode_counter_record decode_counter_record zero_counter_record (λ r'. r'.header) r
unfolding encode_counter_record
counter_record_lem r (f, k, pos, n, l) =
    let (b, w, d) = counter_data_lem r.header.data_format r.record_data f in
    record {
      payload = b;
      written = rw w (encode_with_header_lem _ r.header.data_format b pos);
      counts = (k, n, rw w at l);
      read = d r.header.length;
    }
