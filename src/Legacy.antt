-- ===== src/Legacy.antt =====
-- decoders/netflowlegacy: NetFlow v5. Packets and records are records of numbers; a field of w bits
-- holds a number below 2 ^ w (`RecordFits`, `PacketFits`).
mod Tests
pub mod Decode
pub mod Encode
pub mod Widths
pub mod RoundTrip
pub mod Errors
use goflow.Base.{ℕ, List, Error}

-- The names of the fields are those of packet.go.
pub record RecordNetFlowV5 : Type 0 where
  pub src_addr : ℕ
  pub dst_addr : ℕ
  pub next_hop : ℕ
  pub input : ℕ
  pub output : ℕ
  pub d_pkts : ℕ
  pub d_octets : ℕ
  pub first : ℕ
  pub last : ℕ
  pub src_port : ℕ
  pub dst_port : ℕ
  pub pad1 : ℕ
  pub tcp_flags : ℕ
  pub proto : ℕ
  pub tos : ℕ
  pub src_as : ℕ
  pub dst_as : ℕ
  pub src_mask : ℕ
  pub dst_mask : ℕ
  pub pad2 : ℕ

-- `RecordsNetFlowV5{}`
abbrev pub zero_record : RecordNetFlowV5
zero_record = record {
  src_addr = 0;
  dst_addr = 0;
  next_hop = 0;
  input = 0;
  output = 0;
  d_pkts = 0;
  d_octets = 0;
  first = 0;
  last = 0;
  src_port = 0;
  dst_port = 0;
  pad1 = 0;
  tcp_flags = 0;
  proto = 0;
  tos = 0;
  src_as = 0;
  dst_as = 0;
  src_mask = 0;
  dst_mask = 0;
  pad2 = 0;
}

pub record PacketNetFlowV5 : Type 0 where
  pub version : ℕ
  pub count : ℕ
  pub sys_uptime : ℕ
  pub unix_secs : ℕ
  pub unix_n_secs : ℕ
  pub flow_sequence : ℕ
  pub engine_type : ℕ
  pub engine_id : ℕ
  pub sampling_interval : ℕ
  pub records : List RecordNetFlowV5
