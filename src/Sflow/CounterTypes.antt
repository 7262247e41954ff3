-- ===== src/Sflow/CounterTypes.antt =====
-- decoders/sflow/datastructure.go: the records of counter samples.
use goflow.Base.{ℕ, List}

pub record IfCounters : Type 0 where
  pub if_index : ℕ
  pub if_type : ℕ
  pub if_speed : ℕ
  pub if_direction : ℕ
  pub if_status : ℕ
  pub if_in_octets : ℕ
  pub if_in_ucast_pkts : ℕ
  pub if_in_multicast_pkts : ℕ
  pub if_in_broadcast_pkts : ℕ
  pub if_in_discards : ℕ
  pub if_in_errors : ℕ
  pub if_in_unknown_protos : ℕ
  pub if_out_octets : ℕ
  pub if_out_ucast_pkts : ℕ
  pub if_out_multicast_pkts : ℕ
  pub if_out_broadcast_pkts : ℕ
  pub if_out_discards : ℕ
  pub if_out_errors : ℕ
  pub if_promiscuous_mode : ℕ

pub record EthernetCounters : Type 0 where
  pub dot3_stats_alignment_errors : ℕ
  pub dot3_stats_fcs_errors : ℕ
  pub dot3_stats_single_collision_frames : ℕ
  pub dot3_stats_multiple_collision_frames : ℕ
  pub dot3_stats_sqe_test_errors : ℕ
  pub dot3_stats_deferred_transmissions : ℕ
  pub dot3_stats_late_collisions : ℕ
  pub dot3_stats_excessive_collisions : ℕ
  pub dot3_stats_internal_mac_transmit_errors : ℕ
  pub dot3_stats_carrier_sense_errors : ℕ
  pub dot3_stats_frame_too_longs : ℕ
  pub dot3_stats_internal_mac_receive_errors : ℕ
  pub dot3_stats_symbol_errors : ℕ

-- `CounterRecord.Data`: `no_counters` is a nil interface, the data of `CounterRecord{}`.
pub data CounterData : Type 0 where
  no_counters : CounterData
  if_counters : IfCounters → CounterData
  ethernet_counters : EthernetCounters → CounterData
  raw_counters : List ℕ → CounterData
