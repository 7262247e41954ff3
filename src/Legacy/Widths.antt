-- ===== src/Legacy/Widths.antt =====
-- The widths of the fields of a NetFlow v5 packet, and the sizes of what is written.
use goflow.Base.{
  ◌*◌, ◌%◌, ◌^◌, ◌<◌, ◌≡◌, refl, List, [], ◌∷◌, length, length-append, concat_map, All, arith,
}
use goflow.Wire.{write_u8, write_u16, write_u32}
use goflow.Legacy.{RecordNetFlowV5, PacketNetFlowV5}
use goflow.Legacy.Encode.{encode_record, encode_header, encode_header_fields}

pub record RecordFits (r : RecordNetFlowV5) : Type 0 where
  pub src_addr : r.src_addr < 2 ^ 32
  pub dst_addr : r.dst_addr < 2 ^ 32
  pub next_hop : r.next_hop < 2 ^ 32
  pub input : r.input < 2 ^ 16
  pub output : r.output < 2 ^ 16
  pub d_pkts : r.d_pkts < 2 ^ 32
  pub d_octets : r.d_octets < 2 ^ 32
  pub first : r.first < 2 ^ 32
  pub last : r.last < 2 ^ 32
  pub src_port : r.src_port < 2 ^ 16
  pub dst_port : r.dst_port < 2 ^ 16
  pub pad1 : r.pad1 < 2 ^ 8
  pub tcp_flags : r.tcp_flags < 2 ^ 8
  pub proto : r.proto < 2 ^ 8
  pub tos : r.tos < 2 ^ 8
  pub src_as : r.src_as < 2 ^ 16
  pub dst_as : r.dst_as < 2 ^ 16
  pub src_mask : r.src_mask < 2 ^ 8
  pub dst_mask : r.dst_mask < 2 ^ 8
  pub pad2 : r.pad2 < 2 ^ 16

pub record PacketFits (p : PacketNetFlowV5) : Type 0 where
  pub sys_uptime : p.sys_uptime < 2 ^ 32
  pub unix_secs : p.unix_secs < 2 ^ 32
  pub unix_n_secs : p.unix_n_secs < 2 ^ 32
  pub flow_sequence : p.flow_sequence < 2 ^ 32
  pub engine_type : p.engine_type < 2 ^ 8
  pub engine_id : p.engine_id < 2 ^ 8
  pub sampling_interval : p.sampling_interval < 2 ^ 16
  pub record_count : length p.records < 2 ^ 16
  pub records : All RecordFits p.records

-- A record as its fields fit their widths.
abbrev pub cut : RecordNetFlowV5 → RecordNetFlowV5
cut r = record {
  src_addr = r.src_addr % 2 ^ 32;
  dst_addr = r.dst_addr % 2 ^ 32;
  next_hop = r.next_hop % 2 ^ 32;
  input = r.input % 2 ^ 16;
  output = r.output % 2 ^ 16;
  d_pkts = r.d_pkts % 2 ^ 32;
  d_octets = r.d_octets % 2 ^ 32;
  first = r.first % 2 ^ 32;
  last = r.last % 2 ^ 32;
  src_port = r.src_port % 2 ^ 16;
  dst_port = r.dst_port % 2 ^ 16;
  pad1 = r.pad1 % 2 ^ 8;
  tcp_flags = r.tcp_flags % 2 ^ 8;
  proto = r.proto % 2 ^ 8;
  tos = r.tos % 2 ^ 8;
  src_as = r.src_as % 2 ^ 16;
  dst_as = r.dst_as % 2 ^ 16;
  src_mask = r.src_mask % 2 ^ 8;
  dst_mask = r.dst_mask % 2 ^ 8;
  pad2 = r.pad2 % 2 ^ 16;
}

pub cut_of_fits : (r : RecordNetFlowV5) → RecordFits r → cut r ≡ r
cut_of_fits r f = ground arith

pub length-encode_record : (r : RecordNetFlowV5) → length (encode_record r) ≡ 48
unfolding encode_record write_u8 write_u16 write_u32
length-encode_record r = refl

pub length-encode_header : (p : PacketNetFlowV5) → length (encode_header p) ≡ 24
unfolding encode_header encode_header_fields write_u8 write_u16 write_u32
length-encode_header p = refl

pub length-encode_records :
    (rs : List RecordNetFlowV5) → length (concat_map encode_record rs) ≡ 48 * length rs
length-encode_records [] = refl
length-encode_records (r ∷ rs) = omega (
  arith,
  length-append (encode_record r) (concat_map encode_record rs),
  length-encode_record r,
  length-encode_records rs,
)
