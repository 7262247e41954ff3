-- ===== src/Legacy/Tests.antt =====
-- Tests of the NetFlow v5 decoder and encoder, and the theorems about them at an input.
use goflow.Base.{
  ℕ, ◌≡◌, ◌⊎◌, ◌≤◌, ◌<◌, refl, inl, List, [], ◌∷◌, ◌++◌, ok, err, unknown_version, unexpected_eof,
  decoder_error, arith, length, concat_map,
}
use goflow.Wire.{read_uint}
use goflow.Legacy.{RecordNetFlowV5, PacketNetFlowV5, zero_record}
use goflow.Legacy.Decode.{decode_message, decode_message_version}
use goflow.Legacy.Encode.{
  encode_record, encode_header_fields, encode_message, encoded, refused, count_mismatch,
}
use goflow.Legacy.Widths.{PacketFits}
use goflow.Legacy.RoundTrip.{decode_message_version-encode_message, decode_message-truncated}
use goflow.Legacy.Errors.{decode_message_lem}

abbrev one_record : RecordNetFlowV5
one_record = record {
  src_addr = 0x0a000001;
  dst_addr = 0x0a000002;
  next_hop = 0;
  input = 3;
  output = 4;
  d_pkts = 10;
  d_octets = 1500;
  first = 100;
  last = 200;
  src_port = 443;
  dst_port = 51000;
  pad1 = 0;
  tcp_flags = 0x18;
  proto = 6;
  tos = 0;
  src_as = 64512;
  dst_as = 64513;
  src_mask = 24;
  dst_mask = 24;
  pad2 = 0;
}

abbrev one_packet : PacketNetFlowV5
one_packet = record {
  version = 0;
  count = 0;
  sys_uptime = 1000;
  unix_secs = 2000;
  unix_n_secs = 3;
  flow_sequence = 7;
  engine_type = 1;
  engine_id = 2;
  sampling_interval = 100;
  records = one_record ∷ [];
}

-- The same packet, whose header counts two records more than it has.
abbrev short_packet : PacketNetFlowV5
short_packet = record one_packet { version = 5; count = 3 }

one_packet-PacketFits : PacketFits one_packet
one_packet-PacketFits = omega arith

short_packet-PacketFits : PacketFits short_packet
short_packet-PacketFits = omega arith

wrong_count : encode_message short_packet ≡ refused (count_mismatch 3 1)
unfolding encode_message
wrong_count = refl

wrong_version_test :
    decode_message_version (0 ∷ 9 ∷ 1 ∷ []) ≡ err (decoder_error (unknown_version 9))
unfolding decode_message_version read_uint decode_message
wrong_version_test = refl

decode_message_version-encode_message_example :
    (b : List ℕ) × (encode_message one_packet ≡ encoded b)
    × (decode_message_version (b ++ 1 ∷ 2 ∷ [])
        ≡ ok (record one_packet { version = 5; count = 1 }, 1 ∷ 2 ∷ []))
decode_message_version-encode_message_example =
    decode_message_version-encode_message one_packet one_packet-PacketFits (inl refl) (inl refl)
      (1 ∷ 2 ∷ [])

decode_message-truncated_example :
    decode_message 5
      (encode_header_fields short_packet ++ (concat_map encode_record (one_record ∷ []) ++ 1 ∷ []))
    ≡ ok (record short_packet { records = one_record ∷ zero_record ∷ zero_record ∷ [] }, 1 ∷ [])
decode_message-truncated_example =
    decode_message-truncated 2 short_packet (1 ∷ []) short_packet-PacketFits (omega arith)
      (omega arith) (omega arith) (omega arith)

decode_message_lem_example :
    ((22 ≤ 3)
      × (p : PacketNetFlowV5) × (rest : List ℕ) × (decode_message 5 (1 ∷ 2 ∷ 3 ∷ []) ≡ ok (p, rest))
      × (length p.records ≡ p.count))
    ⊎ ((3 < 22) × (decode_message 5 (1 ∷ 2 ∷ 3 ∷ []) ≡ err (decoder_error unexpected_eof)))
decode_message_lem_example = decode_message_lem 5 (1 ∷ 2 ∷ 3 ∷ [])
