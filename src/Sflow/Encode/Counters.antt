-- ===== src/Sflow/Encode/Counters.antt =====
-- decoders/sflow/encode.go: the payload of a counter record, by the cases of the switch of
-- `encodeCounterRecord`.
use goflow.Base.{ℕ, List, ◌++◌}
use goflow.Encoding.{EncodeResult, ok, err, unsupported_record}
use goflow.Wire.{write_u32, write_u64}
use goflow.Sflow.CounterTypes.{
  CounterData, IfCounters, EthernetCounters, no_counters, if_counters, ethernet_counters,
  raw_counters,
}

unfoldable pub encode_if_counters : IfCounters → List ℕ
encode_if_counters c =
    write_u32 c.if_index
    ++ (write_u32 c.if_type
        ++ (write_u64 c.if_speed
            ++ (write_u32 c.if_direction
                ++ (write_u32 c.if_status
                    ++ (write_u64 c.if_in_octets
                        ++ (write_u32 c.if_in_ucast_pkts
                            ++ (write_u32 c.if_in_multicast_pkts
                                ++ (write_u32 c.if_in_broadcast_pkts
                                    ++ (write_u32 c.if_in_discards
                                        ++ (write_u32 c.if_in_errors
                                            ++ (write_u32 c.if_in_unknown_protos
                                                ++ (write_u64 c.if_out_octets
                                                    ++ (write_u32 c.if_out_ucast_pkts
                                                        ++ (write_u32 c.if_out_multicast_pkts
                                                            ++ (write_u32 c.if_out_broadcast_pkts
                                                            ++ (write_u32 c.if_out_discards
                                                            ++ (write_u32 c.if_out_errors
                                                            ++ (write_u32
                                                            c.if_promiscuous_mode))))))))))))))))))

unfoldable pub encode_ethernet_counters : EthernetCounters → List ℕ
encode_ethernet_counters c =
    write_u32 c.dot3_stats_alignment_errors
    ++ (write_u32 c.dot3_stats_fcs_errors
        ++ (write_u32 c.dot3_stats_single_collision_frames
            ++ (write_u32 c.dot3_stats_multiple_collision_frames
                ++ (write_u32 c.dot3_stats_sqe_test_errors
                    ++ (write_u32 c.dot3_stats_deferred_transmissions
                        ++ (write_u32 c.dot3_stats_late_collisions
                            ++ (write_u32 c.dot3_stats_excessive_collisions
                                ++ (write_u32 c.dot3_stats_internal_mac_transmit_errors
                                    ++ (write_u32 c.dot3_stats_carrier_sense_errors
                                        ++ (write_u32 c.dot3_stats_frame_too_longs
                                            ++ (write_u32 c.dot3_stats_internal_mac_receive_errors
                                                ++ (write_u32 c.dot3_stats_symbol_errors))))))))))))

-- The payload of a record, by the type of its data.
unfoldable pub encode_counter_data : CounterData → EncodeResult (List ℕ)
encode_counter_data no_counters = err unsupported_record
encode_counter_data (if_counters c) = ok (encode_if_counters c)
encode_counter_data (ethernet_counters c) = ok (encode_ethernet_counters c)
encode_counter_data (raw_counters bytes) = ok bytes

-- The data format of a record whose header has none.
unfoldable pub counter_format : CounterData → ℕ
counter_format no_counters = 0
counter_format (if_counters c) = 1
counter_format (ethernet_counters c) = 2
counter_format (raw_counters bytes) = 0
