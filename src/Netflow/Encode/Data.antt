-- ===== src/Netflow/Encode/Data.antt =====
-- `asBytes`, `encodeDataFieldValue` and the encoders of data sets.
use goflow.Base.{
  ℕ, List, [], ◌∷◌, ◌++◌, ◌&&◌, not, Option, none, some, length, leb, ltb, ◌==◌, if◌then◌else◌,
}
use goflow.Wire.{write_u8, write_u16}
use goflow.Netflow.Types.{
  Field, FlowSetHeader, Value, bytes, text, DataField, DataRecord, OptionsDataRecord, Template,
  template, nfv9_options, ipfix_options,
}
use goflow.Encoding.{
  EncodeResult, ok, err, ◌>>=◌, ◌>>◌, guard, encode_all, unsupported_value, invalid_template,
  index_out_of_range, variable_length_exceeds, length_mismatch, field_count_mismatch,
  scope_mismatch, option_mismatch, invalid_id,
}
use goflow.Netflow.Encode.Sets.{pad_flow_set_payload}

abbrev pub as_bytes : Value → EncodeResult (List ℕ)
as_bytes (bytes b) = ok b
as_bytes (text s) = ok s
as_bytes Value.nil = err unsupported_value
as_bytes Value.other = err unsupported_value

-- `length`: that of the template, if there is one
abbrev pub value_length : DataField → Option Field → ℕ
value_length field none = field.length
value_length field (some f) = f.length

-- The length prefix of a value of variable length.
unfoldable pub encode_length : ℕ → List ℕ
encode_length n = if ltb n 255 then write_u8 n else write_u8 0xff ++ write_u16 n

unfoldable pub encode_data_field_value : DataField → Option Field → EncodeResult (List ℕ)
encode_data_field_value field tmpl = do
  value ← as_bytes field.value
  let n = value_length field tmpl
  if n == 0xffff
      then (if ltb 0xffff (length value)
          then err variable_length_exceeds
          else ok (encode_length (length value) ++ value))
      else if not (n == 0) && not (n == length value)
      then err length_mismatch
      else ok value

-- The loop over the values of a record, with the fields of the template beside them (`fields[i]`).
-- Past the last field Go would panic; the counts are compared before.
unfoldable pub encode_values : List DataField → Option (List Field) → EncodeResult (List ℕ)
encode_values [] tmpl = ok []
encode_values (value ∷ values) none = do
  b ← encode_data_field_value value none
  rest ← encode_values values none
  ok (b ++ rest)
encode_values (value ∷ values) (some []) = err index_out_of_range
encode_values (value ∷ values) (some (field ∷ fields)) = do
  b ← encode_data_field_value value (some field)
  rest ← encode_values values (some fields)
  ok (b ++ rest)

unfoldable pub template_fields : Option Template → ℕ → EncodeResult (Option (List Field))
template_fields none values = ok none
template_fields (some (template t)) values =
    if length t.fields == values then ok (some t.fields) else err field_count_mismatch
template_fields (some _) values = err invalid_template

-- The counts of scopes and options of an options template against those of a record.
abbrev pub check_counts :
    List Field → List Field → ℕ → ℕ → EncodeResult (Option (List Field) × Option (List Field))
check_counts scope_fields option_fields scopes options = do
  guard (length scope_fields == scopes) scope_mismatch
  guard (length option_fields == options) option_mismatch
  ok (some scope_fields, some option_fields)

unfoldable pub option_template_fields :
    Option Template → ℕ → ℕ → EncodeResult (Option (List Field) × Option (List Field))
option_template_fields none scopes options = ok (none, none)
option_template_fields (some (nfv9_options t)) scopes options =
    check_counts t.scopes t.options scopes options
option_template_fields (some (ipfix_options t)) scopes options =
    check_counts t.scopes t.options scopes options
option_template_fields (some _) scopes options = err invalid_template

-- The body of the loop of `encodeDataFlowSet`.
unfoldable pub encode_data_record : Option Template → DataRecord → EncodeResult (List ℕ)
encode_data_record tmpl r = do
  fields ← template_fields tmpl (length r.values)
  encode_values r.values fields

unfoldable pub encode_data_flow_set :
    FlowSetHeader → List DataRecord → Option Template → EncodeResult (List ℕ × ℕ)
encode_data_flow_set header records tmpl = do
  guard (leb 256 header.id) (invalid_id header.id)
  payload ← encode_all (encode_data_record tmpl) records
  ok (pad_flow_set_payload payload, header.id)

-- The body of the loop of `encodeOptionsDataFlowSet`.
unfoldable pub encode_options_data_record :
    Option Template → OptionsDataRecord → EncodeResult (List ℕ)
encode_options_data_record tmpl r = do
  fields ← option_template_fields tmpl (length r.scopes_values) (length r.options_values)
  scopes ← encode_values r.scopes_values fields.0
  options ← encode_values r.options_values fields.1
  ok (scopes ++ options)

unfoldable pub encode_options_data_flow_set :
    FlowSetHeader → List OptionsDataRecord → Option Template → EncodeResult (List ℕ × ℕ)
encode_options_data_flow_set header records tmpl = do
  guard (leb 256 header.id) (invalid_id header.id)
  payload ← encode_all (encode_options_data_record tmpl) records
  ok (pad_flow_set_payload payload, header.id)

unfoldable pub encode_raw_flow_set : FlowSetHeader → List ℕ → EncodeResult (List ℕ × ℕ)
encode_raw_flow_set header records = do
  guard (leb 256 header.id) (invalid_id header.id)
  ok (pad_flow_set_payload records, header.id)
