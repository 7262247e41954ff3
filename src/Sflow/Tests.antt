-- ===== src/Sflow/Tests.antt =====
-- A datagram of sFlow that fits the wire. `Theorems` has the theorems at this input and others.
mod Theorems
use goflow.Base.{
  ℕ, ◌+◌, ◌*◌, ◌≤◌, ◌<◌, ◌≡◌, refl, inl, inr, List, [], ◌∷◌, ◌++◌, ok, err, arith, length,
  replicate,
}
use goflow.Encoding.{EncodeResult, encode_all}
use goflow.Sflow.FlowTypes.{
  SampledHeader, SampledEthernet, ExtendedGateway, sampled_header, sampled_ethernet,
  extended_gateway, extended_acl, raw_record,
}
use goflow.Sflow.CounterTypes.{EthernetCounters, ethernet_counters}
use goflow.Sflow.Types.{
  RecordHeader, FlowRecord, CounterRecord, zero_flow_record, SampleHeader, FlowSample,
  CounterSample, flow_sample, counter_sample, raw_sample, Packet,
}
use goflow.Sflow.Xdr.{write_xdr_padding}
use goflow.Wire.{write_u32}
use goflow.Sflow.Encode.Flow.{
  encode_sampled_header, encode_flow_data, encode_extended_gateway, encode_ip, encode_as_path,
  encode_communities,
}
use goflow.Sflow.Encode.Counters.{encode_ethernet_counters, encode_counter_data}
use goflow.Sflow.Encode.Samples.{
  encode_flow_record, encode_message, encode_sample, encode_flow_sample, encode_counter_sample,
  encode_sample_header, encode_records, encode_counter_record, encode_with_header,
}
use goflow.Sflow.RoundTrip.Packets.{PacketFits}
use goflow.Sflow.RoundTrip.FlowRecords.{FlowRecordFits}
use goflow.Sflow.RoundTrip.Counters.{CounterRecordFits}
use goflow.Sflow.RoundTrip.Message.{SampleFits}

abbrev six_bytes : List ℕ
six_bytes = 1 ∷ 2 ∷ 3 ∷ 4 ∷ 5 ∷ 6 ∷ []

-- A sampled header of 6 bytes, with 2 bytes of padding.
abbrev header_record : FlowRecord
header_record = record {
  header = record { data_format = 1; length = 24 };
  record_data = sampled_header (record {
    protocol = 1;
    frame_length = 64;
    stripped = 4;
    original_length = 6;
    header_data = six_bytes;
  });
}

-- A gateway with one AS path of two numbers.
abbrev gateway_record : FlowRecord
gateway_record = record {
  header = record { data_format = 1003; length = 52 };
  record_data = extended_gateway (record {
    next_hop_ip_version = 1;
    next_hop = 10 ∷ 0 ∷ 0 ∷ 1 ∷ [];
    as_number = 64512;
    src_as = 64513;
    src_peer_as = 64514;
    as_destinations = 1;
    as_path_type = 2;
    as_path_length = 2;
    as_path = 100 ∷ 200 ∷ [];
    dst_as_path = record { type = 2; path = 100 ∷ 200 ∷ [] } ∷ [];
    communities_length = 1;
    communities = 7 ∷ [];
    local_pref = 50;
  });
}

-- A vendor's record.
abbrev vendor_record : FlowRecord
vendor_record = record {
  header = record { data_format = 4413 * 4096 + 1; length = 3 };
  record_data = raw_record (1 ∷ 2 ∷ 3 ∷ []);
}

abbrev counters : CounterRecord
counters = record {
  header = record { data_format = 2; length = 52 };
  record_data = ethernet_counters (record {
    dot3_stats_alignment_errors = 1;
    dot3_stats_fcs_errors = 2;
    dot3_stats_single_collision_frames = 3;
    dot3_stats_multiple_collision_frames = 4;
    dot3_stats_sqe_test_errors = 5;
    dot3_stats_deferred_transmissions = 6;
    dot3_stats_late_collisions = 7;
    dot3_stats_excessive_collisions = 8;
    dot3_stats_internal_mac_transmit_errors = 9;
    dot3_stats_carrier_sense_errors = 10;
    dot3_stats_frame_too_longs = 11;
    dot3_stats_internal_mac_receive_errors = 12;
    dot3_stats_symbol_errors = 13;
  });
}

abbrev one_flow_sample : FlowSample
one_flow_sample = record {
  header = record {
    format = 1;
    length = 135;
    sample_sequence_number = 9;
    source_id_type = 0;
    source_id_value = 3;
  };
  sampling_rate = 512;
  sample_pool = 1024;
  drops = 0;
  input = 1;
  output = 2;
  flow_records_count = 3;
  records = header_record ∷ gateway_record ∷ vendor_record ∷ [];
}

abbrev one_counter_sample : CounterSample
one_counter_sample = record {
  header = record {
    format = 4;
    length = 76;
    sample_sequence_number = 10;
    source_id_type = 0;
    source_id_value = 3;
  };
  counter_records_count = 1;
  records = counters ∷ [];
}

abbrev raw_header : SampleHeader
raw_header = record {
  format = 7;
  length = 2;
  sample_sequence_number = 0;
  source_id_type = 0;
  source_id_value = 0;
}

abbrev one_packet : Packet
one_packet = record {
  version = 0;
  ip_version = 1;
  agent_ip = 192 ∷ 0 ∷ 2 ∷ 1 ∷ [];
  sub_agent_id = 0;
  sequence_number = 77;
  uptime = 1000;
  samples_count = 0;
  samples =
      flow_sample one_flow_sample
      ∷ counter_sample one_counter_sample
      ∷ raw_sample raw_header (5 ∷ 6 ∷ [])
      ∷ [];
}

gateway_fits : FlowRecordFits gateway_record
unfolding encode_flow_data encode_extended_gateway encode_ip encode_as_path encode_communities
    write_u32
gateway_fits = (
  (
    refl,
    record {
      address = inr (inl (refl, refl));
      numbers = omega arith;
      path = (refl, omega arith, refl, omega arith, refl);
      communities = omega arith;
      communities_length = refl;
    },
  ),
  omega arith,
  omega arith,
  omega arith,
  refl,
)

header_fits : FlowRecordFits header_record
unfolding encode_flow_data encode_sampled_header write_xdr_padding write_u32
header_fits = omega arith

vendor_fits : FlowRecordFits vendor_record
unfolding encode_flow_data
vendor_fits = ((omega arith, inl (omega arith)), omega arith, omega arith, omega arith, refl)

counters_fit : CounterRecordFits counters
unfolding encode_counter_data encode_ethernet_counters write_u32
counters_fit = ground arith

flow_sample_fits : SampleFits (flow_sample one_flow_sample)
unfolding encode_sample encode_flow_sample encode_sample_header encode_records encode_all
    encode_flow_record encode_with_header encode_flow_data encode_sampled_header
    encode_extended_gateway encode_ip encode_as_path encode_communities write_xdr_padding write_u32
flow_sample_fits = (
  (
    refl,
    omega arith,
    omega arith,
    (refl, omega arith, (header_fits, (gateway_fits, (vendor_fits, tt)))),
  ),
  omega arith,
  omega arith,
  refl,
)

counter_sample_fits : SampleFits (counter_sample one_counter_sample)
unfolding encode_sample encode_counter_sample encode_sample_header encode_records encode_all
    encode_counter_record encode_with_header encode_counter_data encode_ethernet_counters write_u32
counter_sample_fits = (
  (inr (refl, omega arith), (refl, omega arith, (counters_fit, tt))),
  omega arith,
  omega arith,
  refl,
)

raw_sample_fits : SampleFits (raw_sample raw_header (5 ∷ 6 ∷ []))
unfolding encode_sample
raw_sample_fits = omega arith

one_packet-PacketFits : PacketFits one_packet
one_packet-PacketFits = record {
  version = inl refl;
  agent = inl (refl, refl);
  numbers = omega arith;
  samples_count = inl refl;
  limit = omega arith;
  samples = (flow_sample_fits, (counter_sample_fits, (raw_sample_fits, tt)));
}
