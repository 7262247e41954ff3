-- ===== src/Legacy/Encode.antt =====
-- decoders/netflowlegacy/encode.go: `EncodeMessage`. A packet is never nil here.
use goflow.Base.{ℕ, ◌%◌, ◌^◌, List, ◌++◌, length, ◌==◌, if◌then◌else◌, concat_map}
use goflow.Wire.{write_u8, write_u16, write_u32}
use goflow.Legacy.{RecordNetFlowV5, PacketNetFlowV5}

-- The errors of `EncodeMessage`, with the numbers that their texts show.
pub data EncodeError : Type 0 where
  unsupported_version : ℕ → EncodeError
  count_mismatch : ℕ → ℕ → EncodeError

pub data Encoded : Type 0 where
  encoded : List ℕ → Encoded
  refused : EncodeError → Encoded

-- The body of the loop over `packet.Records`.
unfoldable pub encode_record : RecordNetFlowV5 → List ℕ
encode_record r =
    write_u32 r.src_addr
    ++ (write_u32 r.dst_addr
        ++ (write_u32 r.next_hop
            ++ (write_u16 r.input
                ++ (write_u16 r.output
                    ++ (write_u32 r.d_pkts
                        ++ (write_u32 r.d_octets
                            ++ (write_u32 r.first
                                ++ (write_u32 r.last
                                    ++ (write_u16 r.src_port
                                        ++ (write_u16 r.dst_port
                                            ++ (write_u8 r.pad1
                                                ++ (write_u8 r.tcp_flags
                                                    ++ (write_u8 r.proto
                                                        ++ (write_u8 r.tos
                                                            ++ (write_u16 r.src_as
                                                            ++ (write_u16 r.dst_as
                                                            ++ (write_u8 r.src_mask
                                                            ++ (write_u8 r.dst_mask
                                                            ++ write_u16 r.pad2))))))))))))))))))

-- `version`, with the default for 0
abbrev pub encode_version : PacketNetFlowV5 → ℕ
encode_version p = if p.version == 0 then 5 else p.version

-- `count`, with the default for 0
abbrev pub encode_count : PacketNetFlowV5 → ℕ
encode_count p = if p.count == 0 then length p.records % 2 ^ 16 else p.count

-- The header after the version.
unfoldable pub encode_header_fields : PacketNetFlowV5 → List ℕ
encode_header_fields p =
    write_u16 (encode_count p)
    ++ (write_u32 p.sys_uptime
        ++ (write_u32 p.unix_secs
            ++ (write_u32 p.unix_n_secs
                ++ (write_u32 p.flow_sequence
                    ++ (write_u8 p.engine_type
                        ++ (write_u8 p.engine_id ++ write_u16 p.sampling_interval))))))

unfoldable pub encode_header : PacketNetFlowV5 → List ℕ
encode_header p = write_u16 (encode_version p) ++ encode_header_fields p

unfoldable pub encode_message : PacketNetFlowV5 → Encoded
encode_message p =
    if encode_version p == 5
    then (if encode_count p == length p.records
        then encoded (encode_header p ++ concat_map encode_record p.records)
        else refused (count_mismatch (encode_count p) (length p.records)))
    else refused (unsupported_version (encode_version p))
