-- ===== src/Netflow/Decode/Data.antt =====
-- `GetTemplateSize`, `DecodeDataSetUsingFields` and the decoders of data sets. `version` is an
-- argument that the source does not read.
use goflow.Base.{
  ℕ, ◌+◌, List, [], ◌∷◌, Bool, ◌&&◌, Read, ◌>>=◌, pure, ok, err, empty_record, Outcome, repeat,
  length, leb, ltb, ◌==◌, if◌then◌else◌, map,
}
use goflow.Wire.{next, read_u8, read_u16}
use goflow.Netflow.Types.{Field, DataField, bytes, zero_field, DataRecord, OptionsDataRecord}

-- The length 0xffff marks a field of variable length.
abbrev pub variable : ℕ
variable = 0xffff

unfoldable pub get_template_size : List Field → ℕ
get_template_size [] = 0
get_template_size (field ∷ fields) =
    let rest = get_template_size fields in
    if field.length == variable then rest else field.length + rest

-- `finalLength`
unfoldable pub decode_length : ℕ → Read ℕ
decode_length length =
    if length == variable
    then (do length8 ← read_u8; if length8 == 0xff then read_u16 else pure length8)
    else pure length

-- `payload.Next(finalLength)`: fewer bytes where fewer are left.
abbrev pub take_value : Field → ℕ → Read DataField
take_value field n payload =
    let (value, rest) = next n payload in
    ok (
      record {
        pen_provided = field.pen_provided;
        type = field.type;
        length = 0;
        pen = field.pen;
        value = bytes value;
      },
      rest,
    )

unfoldable pub decode_value : Field → Read DataField
decode_value field = do n ← decode_length field.length; take_value field n

unfoldable pub decode_values : List Field → Read (List DataField)
decode_values [] = pure []
decode_values (field ∷ fields) = do
  value ← decode_value field
  values ← decode_values fields
  pure (value ∷ values)

-- `DecodeDataSetUsingFields`: where the payload is shorter than the template, every field is zero.
unfoldable pub decode_data_set_using_fields : List Field → Read (List DataField)
decode_data_set_using_fields fields payload =
    if leb (get_template_size fields) (length payload)
    then decode_values fields payload
    else ok (map (λ _. zero_field) fields, payload)

-- `if payload.Len() == before { return …, ErrorEmptyRecord }`, at the end of a round that was begun
-- with `before` bytes.
abbrev pub require_progress {ℓ} : {A : Type ℓ} → ℕ → A → Read A
require_progress before a payload =
    if length payload == before then err empty_record else ok (a, payload)

-- The body of the loop of `DecodeDataSet`.
unfoldable pub decode_data_record : List Field → Read DataRecord
decode_data_record fields payload =
    (do
      values ← decode_data_set_using_fields fields
      require_progress (length payload) (record { values = values }))
      payload

-- The loop's test, `payload.Len() > 0 && payload.Len() >= size`.
abbrev pub holds_record : ℕ → List ℕ → Bool
holds_record size payload = ltb 0 (length payload) && leb size (length payload)

unfoldable pub decode_data_set : List Field → List ℕ → Outcome DataRecord
decode_data_set fields payload =
    repeat (holds_record (get_template_size fields)) (decode_data_record fields) (length payload) []
      payload

-- The body of the loop of `DecodeOptionsDataSet`.
unfoldable pub decode_options_data_record : List Field → List Field → Read OptionsDataRecord
decode_options_data_record scopes options payload =
    (do
      scope_values ← decode_data_set_using_fields scopes
      option_values ← decode_data_set_using_fields options
      require_progress (length payload)
          (record { scopes_values = scope_values; options_values = option_values }))
      payload

unfoldable pub decode_options_data_set :
    List Field → List Field → List ℕ → Outcome OptionsDataRecord
decode_options_data_set scopes options payload =
    repeat (holds_record (get_template_size scopes + get_template_size options))
      (decode_options_data_record scopes options) (length payload) [] payload
