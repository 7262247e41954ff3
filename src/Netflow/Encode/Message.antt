-- ===== src/Netflow/Encode/Message.antt =====
-- `encodeFlowSet`, `encodeFlowSets` and the encoders of whole messages. Flow sets are values; the
-- source takes pointers to them too, and treats them alike.
use goflow.Base.{ℕ, ◌+◌, List, [], ◌∷◌, ◌++◌, Option, none, some, length, ltb, ◌==◌, if◌then◌else◌}
use goflow.Wire.{write_u16, write_u32}
use goflow.Netflow.Types.{
  FlowSet, template_flow_set, nfv9_options_template_flow_set, ipfix_options_template_flow_set,
  data_flow_set, options_data_flow_set, raw_flow_set, Template, template, nfv9_options,
  ipfix_options, TemplateRecord, NFv9OptionsTemplateRecord, IpfixOptionsTemplateRecord, NFv9Packet,
  IpfixPacket,
}
use goflow.Encoding.{
  EncodeResult, ok, err, ◌>>=◌, ◌>>◌, guard, invalid_flow_set, unsupported_flow_set,
  set_length_exceeds, message_length_exceeds, invariant_failed, unsupported_version,
  unsupported_packet,
}
use goflow.Netflow.Encode.Sets.{
  encode_template_flow_set, encode_nfv9_options_template_flow_set,
  encode_ipfix_options_template_flow_set, default_to,
}
use goflow.Netflow.Encode.Data.{
  encode_data_flow_set, encode_options_data_flow_set, encode_raw_flow_set,
}

-- `map[uint16]interface{}`
abbrev pub Templates : Type 0
Templates = ℕ → Option Template

abbrev pub no_entries : Templates
no_entries id = none

abbrev pub put : Templates → ℕ → Template → Templates
put templates id t j = if id == j then some t else templates j

-- `for _, record := range fs.Records { templates[record.TemplateId] = record }`
abbrev pub put_all : {A : Type 0} → (A → ℕ × Template) → Templates → List A → Templates
put_all entry templates [] = templates
put_all entry templates (x ∷ xs) = put_all entry (put templates (entry x).0 (entry x).1) xs

abbrev pub template_entry : TemplateRecord → ℕ × Template
template_entry t = (t.template_id, template t)

abbrev pub nfv9_entry : NFv9OptionsTemplateRecord → ℕ × Template
nfv9_entry t = (t.template_id, nfv9_options t)

abbrev pub ipfix_entry : IpfixOptionsTemplateRecord → ℕ × Template
ipfix_entry t = (t.template_id, ipfix_options t)

-- The payload and the id of a flow set, and the templates known after it.
unfoldable pub encode_flow_set : ℕ → FlowSet → Templates → EncodeResult (List ℕ × ℕ × Templates)
encode_flow_set version (template_flow_set header records) templates = do
  (payload, id) ← encode_template_flow_set version header records
  ok (payload, id, put_all template_entry templates records)
encode_flow_set version (nfv9_options_template_flow_set header records) templates = do
  guard (version == 9) invalid_flow_set
  (payload, id) ← encode_nfv9_options_template_flow_set header records
  ok (payload, id, put_all nfv9_entry templates records)
encode_flow_set version (ipfix_options_template_flow_set header records) templates = do
  guard (version == 10) invalid_flow_set
  (payload, id) ← encode_ipfix_options_template_flow_set header records
  ok (payload, id, put_all ipfix_entry templates records)
encode_flow_set version (data_flow_set header records) templates = do
  (payload, id) ← encode_data_flow_set header records (templates header.id)
  ok (payload, id, templates)
encode_flow_set version (options_data_flow_set header records) templates = do
  (payload, id) ← encode_options_data_flow_set header records (templates header.id)
  ok (payload, id, templates)
encode_flow_set version (raw_flow_set header records) templates = do
  (payload, id) ← encode_raw_flow_set header records
  ok (payload, id, templates)
encode_flow_set version FlowSet.nil templates = err unsupported_flow_set
encode_flow_set version FlowSet.other templates = err unsupported_flow_set

-- One round of `encodeFlowSets` on the buffer: the header, the payload, and the check of the length.
unfoldable pub append_flow_set : List ℕ → ℕ → List ℕ → EncodeResult (List ℕ)
append_flow_set buf id payload = do
  let set_start = length buf
  let n = 4 + length payload
  let buf' = buf ++ (write_u16 id ++ (write_u16 n ++ payload))
  if ltb 0xffff n
      then err set_length_exceeds
      else if length buf' == set_start + n
      then ok buf'
      else err invariant_failed

unfoldable pub encode_flow_sets_from : ℕ → List FlowSet → Templates → List ℕ → EncodeResult (List ℕ)
encode_flow_sets_from version [] templates buf = ok buf
encode_flow_sets_from version (flow_set ∷ flow_sets) templates buf = do
  (payload, id, templates') ← encode_flow_set version flow_set templates
  buf' ← append_flow_set buf id payload
  encode_flow_sets_from version flow_sets templates' buf'

abbrev pub encode_flow_sets : ℕ → List FlowSet → EncodeResult (List ℕ)
encode_flow_sets version flow_sets = encode_flow_sets_from version flow_sets no_entries []

unfoldable pub encode_nfv9_packet : NFv9Packet → EncodeResult (List ℕ)
encode_nfv9_packet p = do
  let version = if p.version == 0 then 9 else p.version
  guard (version == 9) unsupported_version
  payload ← encode_flow_sets version p.flow_sets
  ok (
      write_u16 version
      ++ (write_u16 (default_to (length p.flow_sets) p.count)
          ++ (write_u32 p.system_uptime
              ++ (write_u32 p.unix_seconds
                  ++ (write_u32 p.sequence_number ++ (write_u32 p.source_id ++ payload))))))

unfoldable pub encode_ipfix_packet : IpfixPacket → EncodeResult (List ℕ)
encode_ipfix_packet p = do
  let version = if p.version == 0 then 10 else p.version
  guard (version == 10) unsupported_version
  payload ← encode_flow_sets version p.flow_sets
  let n = 16 + length payload
  let buf =
      write_u16 version
      ++ (write_u16 n
          ++ (write_u32 p.export_time
              ++ (write_u32 p.sequence_number ++ (write_u32 p.observation_domain_id ++ payload))))
  if ltb 0xffff n
      then err message_length_exceeds
      else if length buf == n
      then ok buf
      else err invariant_failed

-- The packets that `EncodeMessage` may be called with; `other` is any other type.
pub data Packet : Type 0 where
  nfv9 : NFv9Packet → Packet
  ipfix : IpfixPacket → Packet
  other : Packet

unfoldable pub encode_message : Packet → EncodeResult (List ℕ)
encode_message (nfv9 p) = encode_nfv9_packet p
encode_message (ipfix p) = encode_ipfix_packet p
encode_message other = err unsupported_packet
