-- ===== src/Netflow/Decode/Templates.antt =====
-- `DecodeField` and the decoders of template sets. A set decoder returns what it has decoded, with
-- the error if there is one; its loop runs on fuel, the length of the buffer (`Termination`).
use goflow.Base.{
  ℕ, zero, suc, ◌-◌, ◌/◌, List, [], ◌∷◌, Bool, true, false, ◌&&◌, not, Read, ◌>>=◌, pure, err,
  negative_length, Outcome, repeat, length, leb, ltb, ◌==◌, if◌then◌else◌, bit_and, bit_xor,
}
use goflow.Wire.{read_u16, read_u32}
use goflow.Netflow.Types.{
  Field, TemplateRecord, NFv9OptionsTemplateRecord, IpfixOptionsTemplateRecord,
}

-- What follows the type and the length: the enterprise number, if the enterprise bit is set and read.
unfoldable pub decode_pen : Bool → ℕ → ℕ → Read Field
decode_pen pen type length =
    if pen && not (bit_and type 0x8000 == 0)
    then (do
      number ← read_u32
      pure (record {
        pen_provided = true;
        type = bit_xor type 0x8000;
        length = length;
        pen = number;
      }))
    else pure (record { pen_provided = false; type = type; length = length; pen = 0 })

-- `DecodeField`. The loop of `DecodeTemplateSet` has the same steps in its body, with `version == 10`
-- for `pen`.
unfoldable pub decode_field : Bool → Read Field
decode_field pen = do type ← read_u16; length ← read_u16; decode_pen pen type length

-- `for i := 0; i < n; i++ { … fields[i] = field }`
unfoldable pub decode_fields : Bool → ℕ → Read (List Field)
decode_fields pen zero = pure []
decode_fields pen (suc n) = do
  field ← decode_field pen
  fields ← decode_fields pen n
  pure (field ∷ fields)

-- `payload.Len() >= 4`
abbrev pub at_least_four : List ℕ → Bool
at_least_four payload = leb 4 (length payload)

-- The body of the loop of `DecodeTemplateSet`.
unfoldable pub decode_template : ℕ → Read TemplateRecord
decode_template version = do
  template_id ← read_u16
  field_count ← read_u16
  fields ← decode_fields (version == 10) field_count
  pure (record { template_id = template_id; field_count = field_count; fields = fields })

unfoldable pub decode_template_set : ℕ → List ℕ → Outcome TemplateRecord
decode_template_set version payload =
    repeat at_least_four (decode_template version) (length payload) [] payload

-- The body of the loop of `DecodeNFv9OptionsTemplateSet`. A length is a `uint16`, so the quotients
-- by 4 are not negative.
unfoldable pub decode_nfv9_options_template : Read NFv9OptionsTemplateRecord
decode_nfv9_options_template = do
  template_id ← read_u16
  scope_length ← read_u16
  option_length ← read_u16
  scopes ← decode_fields false (scope_length / 4)
  options ← decode_fields false (option_length / 4)
  pure (record {
    template_id = template_id;
    scope_length = scope_length;
    option_length = option_length;
    scopes = scopes;
    options = options;
  })

unfoldable pub decode_nfv9_options_template_set : List ℕ → Outcome NFv9OptionsTemplateRecord
decode_nfv9_options_template_set payload =
    repeat at_least_four decode_nfv9_options_template (length payload) [] payload

abbrev pub fail_negative {ℓ} : {A : Type ℓ} → Read A
fail_negative payload = err negative_length

-- The body of the loop of `DecodeIPFIXOptionsTemplateSet`: the test of `optionsSize` comes after the
-- scopes are read.
unfoldable pub decode_ipfix_options_template : Read IpfixOptionsTemplateRecord
decode_ipfix_options_template = do
  template_id ← read_u16
  field_count ← read_u16
  scope_field_count ← read_u16
  scopes ← decode_fields true scope_field_count
  options ←
      (if ltb field_count scope_field_count
        then fail_negative
        else decode_fields true (field_count - scope_field_count))
  pure (record {
    template_id = template_id;
    field_count = field_count;
    scope_field_count = scope_field_count;
    options = options;
    scopes = scopes;
  })

unfoldable pub decode_ipfix_options_template_set : List ℕ → Outcome IpfixOptionsTemplateRecord
decode_ipfix_options_template_set payload =
    repeat at_least_four decode_ipfix_options_template (length payload) [] payload
