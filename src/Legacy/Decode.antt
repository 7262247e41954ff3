-- ===== src/Legacy/Decode.antt =====
-- decoders/netflowlegacy/netflow.go: `DecodeMessage` and `DecodeMessageVersion`.
use goflow.Base.{
  ℕ, zero, suc, List, [], ◌∷◌, Result, ok, err, Read, ◌>>=◌, pure, unknown_version, decoder_error,
  leb, ◌==◌, if◌then◌else◌, length, replicate, true, false,
}
use goflow.Wire.{read_u8, read_u16, read_u32}
use goflow.Legacy.{RecordNetFlowV5, zero_record, PacketNetFlowV5}

-- One round of the loop of `DecodeMessage`.
unfoldable pub decode_record : Read RecordNetFlowV5
decode_record = do
  src_addr ← read_u32
  dst_addr ← read_u32
  next_hop ← read_u32
  input ← read_u16
  output ← read_u16
  d_pkts ← read_u32
  d_octets ← read_u32
  first ← read_u32
  last ← read_u32
  src_port ← read_u16
  dst_port ← read_u16
  pad1 ← read_u8
  tcp_flags ← read_u8
  proto ← read_u8
  tos ← read_u8
  src_as ← read_u16
  dst_as ← read_u16
  src_mask ← read_u8
  dst_mask ← read_u8
  pad2 ← read_u16
  pure (record {
    src_addr = src_addr;
    dst_addr = dst_addr;
    next_hop = next_hop;
    input = input;
    output = output;
    d_pkts = d_pkts;
    d_octets = d_octets;
    first = first;
    last = last;
    src_port = src_port;
    dst_port = dst_port;
    pad1 = pad1;
    tcp_flags = tcp_flags;
    proto = proto;
    tos = tos;
    src_as = src_as;
    dst_as = dst_as;
    src_mask = src_mask;
    dst_mask = dst_mask;
    pad2 = pad2;
  })

-- The loop over `packet.Records[i]` for the `rounds` indices left: it stops for good where fewer
-- than 48 bytes are left, and the records that it has not reached stay zero.
unfoldable pub decode_records : ℕ → Read (List RecordNetFlowV5)
decode_records zero payload = ok ([], payload)
decode_records (suc rounds) payload = elim (leb 48 (length payload)) [
  | true ↦ (do r ← decode_record; rs ← decode_records rounds; pure (r ∷ rs)) payload
  | false ↦ ok (replicate (suc rounds) zero_record, payload)
]

-- The header after the version, as the fields of the packet.
unfoldable pub decode_header : ℕ → Read PacketNetFlowV5
decode_header version = do
  count ← read_u16
  sys_uptime ← read_u32
  unix_secs ← read_u32
  unix_n_secs ← read_u32
  flow_sequence ← read_u32
  engine_type ← read_u8
  engine_id ← read_u8
  sampling_interval ← read_u16
  pure (record {
    version = version;
    count = count;
    sys_uptime = sys_uptime;
    unix_secs = unix_secs;
    unix_n_secs = unix_n_secs;
    flow_sequence = flow_sequence;
    engine_type = engine_type;
    engine_id = engine_id;
    sampling_interval = sampling_interval;
    records = [];
  })

-- `return &DecoderError{…}`
abbrev pub wrap {ℓ} : {A : Type ℓ} → Result A → Result A
wrap (ok a) = ok a
wrap (err e) = err (decoder_error e)

-- `DecodeMessage`, on a packet whose version is set.
unfoldable pub decode_message : ℕ → Read PacketNetFlowV5
decode_message version payload = wrap (
    (do
      packet ← decode_header version
      records ← decode_records packet.count
      pure (record packet { records = records }))
      payload)

abbrev pub wrong_version : ℕ → Read PacketNetFlowV5
wrong_version version payload = err (decoder_error (unknown_version version))

-- `DecodeMessageVersion`
unfoldable pub decode_message_version : Read PacketNetFlowV5
decode_message_version payload = elim (read_u16 payload) [
  | ok (version, rest) ↦
      if version == 5 then decode_message version rest else wrong_version version rest
  | err e ↦ err (decoder_error e)
]
