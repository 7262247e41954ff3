-- ===== src/Netflow/Tests/Messages.antt =====
-- Tests of whole messages: an IPFIX message of a template and a record is encoded, and decoded with a
-- store for one template.
use goflow.Base.{
  ℕ, ◌%◌, ◌≡◌, ◌≤◌, refl, List, [], ◌∷◌, false, ok, err, length, take, drop, Option, none, some,
  template_not_found, repeat,
}
use goflow.Wire.{big_endian, read_uint, write_u8, write_u16, write_u32}
use goflow.Netflow.Types.{
  Field, DataField, bytes, TemplateRecord, DataRecord, FlowSetHeader, template, Template,
  template_flow_set, data_flow_set, IpfixPacket, NFv9Packet, TemplateStore, added,
}
use goflow.Netflow.Decode.Templates.{
  decode_pen, decode_field, decode_fields, decode_template, decode_template_set,
}
use goflow.Netflow.Decode.Data.{
  get_template_size, decode_length, decode_value, decode_values, decode_data_set_using_fields,
  decode_data_record, decode_data_set,
}
use goflow.Netflow.Decode.FlowSets.{
  read_flow_set_header, add_templates, decode_with_template, decode_data_flow_set, decode_body,
  decode_flow_set, decode_flow_sets, decode_message_common,
}
use goflow.Netflow.Decode.Message.{decode_message_ipfix, decode_message_version, ipfix}
use goflow.Netflow.Decode.Loop.{Runs, decode_message_common-Runs}
use goflow.Encoding.{EncodeResult, encode_all}
use goflow.Netflow.Encode.Sets.{
  encode_field, encode_template, encode_template_flow_set, pad_flow_set_payload,
}
use goflow.Netflow.Encode.Data.{
  encode_length, encode_data_field_value, encode_values, template_fields, encode_data_record,
  encode_data_flow_set,
}
use goflow.Netflow.Encode.Message.{
  encode_flow_set, append_flow_set, encode_flow_sets_from, encode_ipfix_packet, encode_nfv9_packet,
}
use goflow.Netflow.Encode.Lengths.{encode_ipfix_packet-length, encode_nfv9_packet-length}

abbrev address : Field
address = record { pen_provided = false; type = 8; length = 4; pen = 0 }

abbrev header : ℕ → ℕ → FlowSetHeader
header id n = record { id = id; length = n }

abbrev address_template : TemplateRecord
address_template = record { template_id = 256; field_count = 1; fields = address ∷ [] }

abbrev address_value : DataField
address_value = record {
  pen_provided = false;
  type = 8;
  length = 0;
  pen = 0;
  value = bytes (10 ∷ 0 ∷ 0 ∷ 1 ∷ []);
}

abbrev address_record : DataRecord
address_record = record { values = address_value ∷ [] }

abbrev ipfix_packet : IpfixPacket
ipfix_packet = record {
  version = 10;
  length = 36;
  export_time = 1;
  sequence_number = 2;
  observation_domain_id = 3;
  flow_sets =
      template_flow_set (header 2 12) (address_template ∷ [])
      ∷ data_flow_set (header 256 8) (address_record ∷ [])
      ∷ [];
}

abbrev set_bytes : List ℕ
set_bytes = 0 ∷ 2 ∷ 0 ∷ 12 ∷ 1 ∷ 0 ∷ 0 ∷ 1 ∷ 0 ∷ 8 ∷ 0 ∷ 4 ∷ 1 ∷ 0 ∷ 0 ∷ 8 ∷ 10 ∷ 0 ∷ 0 ∷ 1 ∷ []

abbrev ipfix_bytes : List ℕ
ipfix_bytes = 0 ∷ 10 ∷ 0 ∷ 36 ∷ 0 ∷ 0 ∷ 0 ∷ 1 ∷ 0 ∷ 0 ∷ 0 ∷ 2 ∷ 0 ∷ 0 ∷ 0 ∷ 3 ∷ set_bytes

test_encode : encode_ipfix_packet ipfix_packet ≡ EncodeResult.ok ipfix_bytes
unfolding encode_ipfix_packet encode_flow_sets_from encode_flow_set append_flow_set
    encode_template_flow_set encode_template encode_field encode_all pad_flow_set_payload
    encode_data_flow_set encode_data_record template_fields encode_values encode_data_field_value
    encode_length write_u16 write_u32 write_u8
test_encode = refl

encode_ipfix_packet-length_example :
    (length ipfix_bytes % 4 ≡ 0)
    × (length ipfix_bytes ≤ 0xffff)
    × (take 2 (drop 2 ipfix_bytes) ≡ write_u16 (length ipfix_bytes))
encode_ipfix_packet-length_example = encode_ipfix_packet-length ipfix_packet ipfix_bytes test_encode

-- A store for one template.
abbrev one_template : TemplateStore (Option Template)
one_template = record {
  add_template = λ s version obs_domain_id id t. (ok added, some t);
  get_template =
      λ s version obs_domain_id id. (elim s [ none ↦ err template_not_found | some t ↦ ok t ], s);
}

test_decode :
    decode_message_version one_template ipfix_bytes (some none)
    ≡ ipfix (record {
      packet = some ipfix_packet;
      error = none;
      store = some (some (template address_template));
    })
unfolding decode_message_version decode_message_ipfix decode_message_common decode_flow_sets
    decode_flow_set read_flow_set_header decode_body decode_data_flow_set decode_with_template
    add_templates decode_template_set decode_template decode_fields decode_field decode_pen
    decode_data_set decode_data_record decode_data_set_using_fields decode_values decode_value
    decode_length get_template_size repeat read_uint big_endian
test_decode = refl

decode_message_common-Runs_example :
    Runs one_template 10 3 20 20 [] none set_bytes
      (some none)
      (decode_message_common one_template 10 3 20 set_bytes (some none))
decode_message_common-Runs_example =
    decode_message_common-Runs one_template 10 3 20 set_bytes (some none)

abbrev nfv9_packet : NFv9Packet
nfv9_packet = record {
  version = 9;
  count = 1;
  system_uptime = 0;
  unix_seconds = 1;
  sequence_number = 2;
  source_id = 3;
  flow_sets = template_flow_set (header 0 12) (address_template ∷ []) ∷ [];
}

abbrev nfv9_bytes : List ℕ
nfv9_bytes =
    0 ∷ 9 ∷ 0 ∷ 1 ∷ 0 ∷ 0 ∷ 0 ∷ 0 ∷ 0 ∷ 0 ∷ 0 ∷ 1 ∷ 0 ∷ 0 ∷ 0 ∷ 2 ∷ 0 ∷ 0 ∷ 0 ∷ 3 ∷ 0 ∷ 0 ∷ 0 ∷ 12
    ∷ 1 ∷ 0 ∷ 0 ∷ 1 ∷ 0 ∷ 8 ∷ 0 ∷ 4 ∷ []

test_encode_nfv9 : encode_nfv9_packet nfv9_packet ≡ EncodeResult.ok nfv9_bytes
unfolding encode_nfv9_packet encode_flow_sets_from encode_flow_set append_flow_set
    encode_template_flow_set encode_template encode_field encode_all pad_flow_set_payload write_u16
    write_u32
test_encode_nfv9 = refl

encode_nfv9_packet-length_example : length nfv9_bytes % 4 ≡ 0
encode_nfv9_packet-length_example =
    encode_nfv9_packet-length nfv9_packet nfv9_bytes test_encode_nfv9
