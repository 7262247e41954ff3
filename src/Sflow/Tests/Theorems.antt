-- ===== src/Sflow/Tests/Theorems.antt =====
-- The theorems about the sFlow decoder and encoder at an input.
use goflow.Base.{
  ℕ, ◌+◌, ◌≡◌, refl, List, [], ◌∷◌, ◌++◌, ok, err, arith, decoder_error, unknown_version,
  unknown_ip_version,
}
use goflow.Encoding.{EncodeResult, encode_all}
use goflow.Wire.{read_uint, read_exactly}
use goflow.Sflow.FlowTypes.{SampledHeader, sampled_header}
use goflow.Sflow.Types.{zero_flow_record, Packet}
use goflow.Sflow.Xdr.{
  write_xdr_padding, read_xdr_string, write_xdr_string, decode_u32_vector, write_u32_vector,
}
use goflow.Sflow.Decode.FlowCases.{decode_sampled_header}
use goflow.Sflow.Decode.Samples.{decode_flow_records}
use goflow.Sflow.Decode.Message.{
  decode_packet, decode_message, decode_message_version, decode_agent_ip, decode_all_samples,
  decode_samples,
}
use goflow.Sflow.Encode.Flow.{encode_sampled_header}
use goflow.Sflow.Encode.Samples.{encode_flow_record, encode_message}
use goflow.Sflow.RoundTrip.Xdr.{
  read_xdr_string-write_xdr_string, decode_u32_vector-write_u32_vector,
}
use goflow.Sflow.RoundTrip.Packets.{decode_message_version-encode_message_sflow}
use goflow.Sflow.Limits.{PacketCounted, decode_message_version-PacketCounted}
use goflow.Sflow.Truncated.{decode_flow_records-truncated, decode_sampled_header-truncated}
use goflow.Sflow.Tests.{
  one_packet, one_packet-PacketFits, header_record, header_fits, gateway_record, gateway_fits,
  six_bytes,
}

decode_message_version-encode_message_sflow_example :
    (b : List ℕ) × (encode_message one_packet ≡ EncodeResult.ok b)
    × ((rest : List ℕ)
        → decode_message_version (b ++ rest)
          ≡ ok (record one_packet { version = 5; samples_count = 3 }, rest))
decode_message_version-encode_message_sflow_example =
    decode_message_version-encode_message_sflow one_packet one_packet-PacketFits

-- A datagram with no samples.
abbrev empty_bytes : List ℕ
empty_bytes =
    0 ∷ 0 ∷ 0 ∷ 5 ∷ 0 ∷ 0 ∷ 0 ∷ 1 ∷ 10 ∷ 0 ∷ 0 ∷ 1 ∷ 0 ∷ 0 ∷ 0 ∷ 2 ∷ 0 ∷ 0 ∷ 0 ∷ 3 ∷ 0 ∷ 0 ∷ 0 ∷ 4
    ∷ 0 ∷ 0 ∷ 0 ∷ 0 ∷ []

abbrev empty_packet : Packet
empty_packet = record {
  version = 5;
  ip_version = 1;
  agent_ip = 10 ∷ 0 ∷ 0 ∷ 1 ∷ [];
  sub_agent_id = 2;
  sequence_number = 3;
  uptime = 4;
  samples_count = 0;
  samples = [];
}

decode_empty : decode_message_version empty_bytes ≡ ok (empty_packet, [])
unfolding decode_message_version decode_message decode_packet decode_agent_ip decode_all_samples
    decode_samples read_uint read_exactly
decode_empty = refl

wrong_version_test :
    decode_message_version (0 ∷ 0 ∷ 0 ∷ 4 ∷ []) ≡ err (decoder_error (unknown_version 4))
unfolding decode_message_version read_uint
wrong_version_test = refl

wrong_address_test :
    decode_message_version (0 ∷ 0 ∷ 0 ∷ 5 ∷ 0 ∷ 0 ∷ 0 ∷ 3 ∷ [])
    ≡ err (decoder_error (unknown_ip_version 3))
unfolding decode_message_version decode_message decode_packet decode_agent_ip read_uint
wrong_address_test = refl

decode_message_version-PacketCounted_example : PacketCounted 5 empty_packet
decode_message_version-PacketCounted_example =
    decode_message_version-PacketCounted empty_bytes empty_packet [] decode_empty

decode_flow_records-truncated_example :
    (b : List ℕ) × (encode_all encode_flow_record (header_record ∷ gateway_record ∷ [])
      ≡ EncodeResult.ok b)
    × (decode_flow_records (2 + 1) (b ++ 1 ∷ 2 ∷ [])
        ≡ ok (header_record ∷ gateway_record ∷ zero_flow_record ∷ [], []))
decode_flow_records-truncated_example =
    decode_flow_records-truncated 1 (header_record ∷ gateway_record ∷ []) (1 ∷ 2 ∷ [])
      (header_fits, (gateway_fits, tt)) (omega arith) (omega arith)

-- A header of 10 bytes of which 6 are there.
abbrev cut_header : SampledHeader
cut_header = record {
  protocol = 1;
  frame_length = 64;
  stripped = 4;
  original_length = 10;
  header_data = six_bytes;
}

decode_sampled_header-truncated_example :
    decode_sampled_header (encode_sampled_header cut_header)
    ≡ ok
        (sampled_header (record cut_header { header_data = six_bytes ++ write_xdr_padding 10 }), [])
decode_sampled_header-truncated_example =
    decode_sampled_header-truncated cut_header (omega arith) (omega arith)

read_xdr_string-write_xdr_string_example :
    read_xdr_string (write_xdr_string (102 ∷ 119 ∷ []) ++ 9 ∷ []) ≡ ok (102 ∷ 119 ∷ [], 9 ∷ [])
read_xdr_string-write_xdr_string_example =
    read_xdr_string-write_xdr_string (102 ∷ 119 ∷ []) (9 ∷ []) (omega arith)

decode_u32_vector-write_u32_vector_example :
    decode_u32_vector (write_u32_vector (16 ∷ 17 ∷ []) ++ 9 ∷ []) ≡ ok (16 ∷ 17 ∷ [], 9 ∷ [])
decode_u32_vector-write_u32_vector_example =
    decode_u32_vector-write_u32_vector (16 ∷ 17 ∷ []) (9 ∷ []) (omega arith) (omega arith)
