-- ===== src/Netflow/Encode/Sets.antt =====
-- `encodeField`, `padFlowSetPayload` and the encoders of template sets.
use goflow.Base.{
  ℕ, ◌+◌, ◌-◌, ◌*◌, ◌/◌, ◌%◌, ◌^◌, List, [], ◌++◌, Bool, true, false, ◌&&◌, ◌||◌, not, length,
  replicate, ltb, ◌==◌, if◌then◌else◌, bit_or, concat_map,
}
use goflow.Wire.{write_u16, write_u32}
use goflow.Netflow.Types.{
  Field, FlowSetHeader, TemplateRecord, NFv9OptionsTemplateRecord, IpfixOptionsTemplateRecord,
}
use goflow.Encoding.{
  EncodeResult, ok, ◌>>=◌, ◌>>◌, guard, encode_all, invalid_id, field_count_mismatch,
  scope_mismatch, option_mismatch,
}

unfoldable pub encode_field : Bool → Field → List ℕ
encode_field pen field =
    write_u16 (if pen && field.pen_provided then bit_or field.type 0x8000 else field.type)
    ++ (write_u16 field.length ++ (if pen && field.pen_provided then write_u32 field.pen else []))

-- `(4 - ((flowSetHeaderLen + len(payload)) % 4)) % 4`
abbrev pub padding : ℕ → ℕ
padding n = (4 - (4 + n) % 4) % 4

unfoldable pub pad_flow_set_payload : List ℕ → List ℕ
pad_flow_set_payload payload = payload ++ replicate (padding (length payload)) 0

-- `if n == 0 { n = uint16(d) }`
abbrev pub default_to : ℕ → ℕ → ℕ
default_to d n = if n == 0 then d % 2 ^ 16 else n

-- The body of the loop of `encodeTemplateFlowSet`.
unfoldable pub encode_template : ℕ → TemplateRecord → EncodeResult (List ℕ)
encode_template version t = do
  let field_count = default_to (length t.fields) t.field_count
  guard (field_count == length t.fields) field_count_mismatch
  ok (
      write_u16 t.template_id
      ++ (write_u16 field_count ++ concat_map (encode_field (version == 10)) t.fields))

-- `id`, with its default by version
abbrev pub template_set_id : ℕ → ℕ → ℕ
template_set_id version id =
    if id == 0 then (if version == 9 then 0 else if version == 10 then 2 else id) else id

-- The bytes and the id of a flow set.
unfoldable pub encode_template_flow_set :
    ℕ → FlowSetHeader → List TemplateRecord → EncodeResult (List ℕ × ℕ)
encode_template_flow_set version header records = do
  let id = template_set_id version header.id
  guard (not (version == 9 && not (id == 0) || version == 10 && not (id == 2))) (invalid_id id)
  payload ← encode_all (encode_template version) records
  ok (pad_flow_set_payload payload, id)

-- The body of the loop of `encodeNFv9OptionsTemplateFlowSet`.
unfoldable pub encode_nfv9_options_template : NFv9OptionsTemplateRecord → EncodeResult (List ℕ)
encode_nfv9_options_template t = do
  let scope_length = default_to (length t.scopes * 4) t.scope_length
  let option_length = default_to (length t.options * 4) t.option_length
  guard (scope_length / 4 == length t.scopes) scope_mismatch
  guard (option_length / 4 == length t.options) option_mismatch
  ok (
      write_u16 t.template_id
      ++ (write_u16 scope_length
          ++ (write_u16 option_length
              ++ (concat_map (encode_field false) t.scopes
                  ++ concat_map (encode_field false) t.options))))

unfoldable pub encode_nfv9_options_template_flow_set :
    FlowSetHeader → List NFv9OptionsTemplateRecord → EncodeResult (List ℕ × ℕ)
encode_nfv9_options_template_flow_set header records = do
  let id = if header.id == 0 then 1 else header.id
  guard (id == 1) (invalid_id id)
  payload ← encode_all encode_nfv9_options_template records
  ok (pad_flow_set_payload payload, id)

-- The body of the loop of `encodeIPFIXOptionsTemplateFlowSet`.
unfoldable pub encode_ipfix_options_template : IpfixOptionsTemplateRecord → EncodeResult (List ℕ)
encode_ipfix_options_template t = do
  let field_count = default_to (length t.scopes + length t.options) t.field_count
  let scope_field_count =
      if t.scope_field_count == 0 && ltb 0 (length t.scopes)
      then length t.scopes % 2 ^ 16
      else t.scope_field_count
  guard (field_count == length t.scopes + length t.options) field_count_mismatch
  guard (scope_field_count == length t.scopes) scope_mismatch
  ok (
      write_u16 t.template_id
      ++ (write_u16 field_count
          ++ (write_u16 scope_field_count
              ++ (concat_map (encode_field true) t.scopes
                  ++ concat_map (encode_field true) t.options))))

unfoldable pub encode_ipfix_options_template_flow_set :
    FlowSetHeader → List IpfixOptionsTemplateRecord → EncodeResult (List ℕ × ℕ)
encode_ipfix_options_template_flow_set header records = do
  let id = if header.id == 0 then 3 else header.id
  guard (id == 3) (invalid_id id)
  payload ← encode_all encode_ipfix_options_template records
  ok (pad_flow_set_payload payload, id)
