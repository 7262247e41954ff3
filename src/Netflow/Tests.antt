-- ===== src/Netflow/Tests.antt =====
-- Tests of the NetFlow v9 and IPFIX decoders and encoders, and the theorems about them at inputs.
mod Messages
use goflow.Base.{
  ℕ, ◌≡◌, ◌≢◌, ◌<◌, refl, inl, inr, List, [], ◌∷◌, ◌++◌, Bool, true, false, ok, arith, length,
  concat_map, replicate, some, done, failed, out_of_fuel, All,
}
use goflow.Wire.{write_u8}
use goflow.Netflow.Types.{
  Field, DataField, bytes, TemplateRecord, NFv9OptionsTemplateRecord, IpfixOptionsTemplateRecord,
  DataRecord, OptionsDataRecord, FlowSetHeader, template,
}
use goflow.Netflow.Decode.Templates.{
  decode_field, decode_template_set, decode_nfv9_options_template_set,
  decode_ipfix_options_template_set,
}
use goflow.Netflow.Decode.Data.{get_template_size, decode_data_set, decode_options_data_set}
use goflow.Netflow.Decode.Fixed.{decode_data_set_fixed, cut_records}
use goflow.Netflow.Decode.Termination.{set_decoders_end}
use goflow.Encoding.{EncodeResult}
use goflow.Netflow.Encode.Sets.{
  encode_field, encode_template_flow_set, encode_nfv9_options_template_flow_set,
  encode_ipfix_options_template_flow_set, pad_flow_set_payload, padding,
}
use goflow.Netflow.Encode.Data.{encode_length, encode_data_flow_set}
use goflow.Netflow.RoundTrip.Fields.{FieldFits, decode_field-encode_field}
use goflow.Netflow.RoundTrip.Templates.{TemplateFits, decode_template_set-encode_template_flow_set}
use goflow.Netflow.RoundTrip.Options.{
  NFv9OptionsFits, IpfixOptionsFits,
  decode_nfv9_options_template_set-encode_nfv9_options_template_flow_set,
  decode_ipfix_options_template_set-encode_ipfix_options_template_flow_set,
}
use goflow.Netflow.RoundTrip.Data.{ValueFits}
use goflow.Netflow.RoundTrip.DataSets.{
  RecordFits, record_bytes, decode_data_set-encode_data_flow_set,
}
use goflow.Netflow.RoundTrip.Padding.{empty_record_of, decode_data_set-padding}

abbrev plain : ℕ → ℕ → Field
plain t n = record { pen_provided = false; type = t; length = n; pen = 0 }

abbrev enterprise : Field
enterprise = record { pen_provided = true; type = 100; length = 0xffff; pen = 29305 }

plain-FieldFits : (pen : Bool) → FieldFits pen (plain 8 4)
plain-FieldFits false = record {
  type = omega arith;
  length = omega arith;
  number = omega arith;
  absent = λ _. refl;
  plain = λ _. refl;
}
plain-FieldFits true = record {
  type = omega arith;
  length = omega arith;
  number = omega arith;
  absent = λ _. refl;
  plain = λ _. refl;
}

enterprise-FieldFits : FieldFits true enterprise
enterprise-FieldFits = record {
  type = omega arith;
  length = omega arith;
  number = omega arith;
  absent = λ h. cc;
  plain = λ h. cc;
}

decode_field-encode_field_example :
    decode_field true (encode_field true enterprise ++ 5 ∷ []) ≡ ok (enterprise, 5 ∷ [])
decode_field-encode_field_example =
    decode_field-encode_field true enterprise (5 ∷ []) enterprise-FieldFits

-- An IPFIX template of an address and an enterprise field of variable length.
abbrev ipfix_template : TemplateRecord
ipfix_template = record { template_id = 256; field_count = 2; fields = plain 8 4 ∷ enterprise ∷ [] }

ipfix_template-TemplateFits : TemplateFits 10 ipfix_template
ipfix_template-TemplateFits = record {
  template_id = omega arith;
  counted = refl;
  field_count = omega arith;
  fields = (plain-FieldFits true, (enterprise-FieldFits, tt));
}

abbrev header : ℕ → FlowSetHeader
header id = record { id = id; length = 0 }

decode_template_set-encode_template_flow_set_example :
    (payload : List ℕ) × (encode_template_flow_set 10 (header 0) (ipfix_template ∷ [])
      ≡ EncodeResult.ok (payload, 2))
    × (decode_template_set 10 payload ≡ done (ipfix_template ∷ []))
decode_template_set-encode_template_flow_set_example =
    decode_template_set-encode_template_flow_set 10 2 (header 0) (ipfix_template ∷ [])
      (inr (refl, inl refl, refl)) (ipfix_template-TemplateFits, tt)

abbrev nfv9_template : NFv9OptionsTemplateRecord
nfv9_template = record {
  template_id = 257;
  scope_length = 4;
  option_length = 4;
  scopes = plain 8 4 ∷ [];
  options = plain 8 4 ∷ [];
}

nfv9_template-NFv9OptionsFits : NFv9OptionsFits nfv9_template
nfv9_template-NFv9OptionsFits = record {
  template_id = omega arith;
  scope_length = omega arith;
  option_length = omega arith;
  scope_count = refl;
  option_count = refl;
  scopes = (plain-FieldFits false, tt);
  options = (plain-FieldFits false, tt);
}

decode_nfv9_options_template_set-encode_nfv9_options_template_flow_set_example :
    (payload : List ℕ) × (encode_nfv9_options_template_flow_set (header 1) (nfv9_template ∷ [])
      ≡ EncodeResult.ok (payload, 1))
    × (decode_nfv9_options_template_set payload ≡ done (nfv9_template ∷ []))
decode_nfv9_options_template_set-encode_nfv9_options_template_flow_set_example =
    decode_nfv9_options_template_set-encode_nfv9_options_template_flow_set (header 1)
      (nfv9_template ∷ []) (inr refl) (nfv9_template-NFv9OptionsFits, tt)

abbrev ipfix_options : IpfixOptionsTemplateRecord
ipfix_options = record {
  template_id = 258;
  field_count = 2;
  scope_field_count = 1;
  options = enterprise ∷ [];
  scopes = plain 8 4 ∷ [];
}

ipfix_options-IpfixOptionsFits : IpfixOptionsFits ipfix_options
ipfix_options-IpfixOptionsFits = record {
  template_id = omega arith;
  field_count = omega arith;
  counted = refl;
  scope_count = refl;
  scopes = (plain-FieldFits true, tt);
  options = (enterprise-FieldFits, tt);
}

decode_ipfix_options_template_set-encode_ipfix_options_template_flow_set_example :
    (payload : List ℕ) × (encode_ipfix_options_template_flow_set (header 3) (ipfix_options ∷ [])
      ≡ EncodeResult.ok (payload, 3))
    × (decode_ipfix_options_template_set payload ≡ done (ipfix_options ∷ []))
decode_ipfix_options_template_set-encode_ipfix_options_template_flow_set_example =
    decode_ipfix_options_template_set-encode_ipfix_options_template_flow_set (header 3)
      (ipfix_options ∷ []) (inr refl) (ipfix_options-IpfixOptionsFits, tt)

abbrev value_of : Field → List ℕ → DataField
value_of f b = record {
  pen_provided = f.pen_provided;
  type = f.type;
  length = 0;
  pen = f.pen;
  value = bytes b;
}

-- Two records: the enterprise value has a length in the data.
abbrev two_records : List DataRecord
two_records =
    record {
      values = value_of (plain 8 4) (10 ∷ 0 ∷ 0 ∷ 1 ∷ []) ∷ value_of enterprise (b'a' ∷ []) ∷ [];
    }
    ∷ record { values = value_of (plain 8 4) (10 ∷ 0 ∷ 0 ∷ 2 ∷ []) ∷ value_of enterprise [] ∷ [] }
    ∷ []

address-ValueFits :
    (n : ℕ)
    → ValueFits (plain 8 4) (value_of (plain 8 4) (10 ∷ 0 ∷ 0 ∷ n ∷ [])) (10 ∷ 0 ∷ 0 ∷ n ∷ [])
address-ValueFits n = record {
  pen_provided = refl;
  type = refl;
  pen = refl;
  no_length = refl;
  value = refl;
  width = inl refl;
  bound = omega arith;
}

enterprise-ValueFits : (b : List ℕ) → length b < 10 → ValueFits enterprise (value_of enterprise b) b
enterprise-ValueFits b h = record {
  pen_provided = refl;
  type = refl;
  pen = refl;
  no_length = refl;
  value = refl;
  width = inr refl;
  bound = omega arith;
}

two_records-RecordFits : All (RecordFits ipfix_template.fields) two_records
two_records-RecordFits = (
  record {
    values = (address-ValueFits 1, (enterprise-ValueFits (b'a' ∷ []) (omega arith), tt));
    nonempty = omega arith;
  },
  (
    record {
      values = (address-ValueFits 2, (enterprise-ValueFits [] (omega arith), tt));
      nonempty = omega arith;
    },
    tt,
  ),
)

decode_data_set-encode_data_flow_set_example :
    (payload : List ℕ) × (encode_data_flow_set
        (header 256)
        two_records
        (some (template ipfix_template))
      ≡ EncodeResult.ok (payload, 256))
    × (decode_data_set ipfix_template.fields payload ≡ done two_records)
unfolding get_template_size
decode_data_set-encode_data_flow_set_example =
    decode_data_set-encode_data_flow_set ipfix_template (header 256) two_records (omega arith)
      two_records-RecordFits (inr (omega arith))

-- The fixed template cuts nine bytes into two addresses and skips the ninth.
abbrev fixed_template : TemplateRecord
fixed_template = record { template_id = 259; field_count = 1; fields = plain 8 4 ∷ [] }

abbrev nine_bytes : List ℕ
nine_bytes = 10 ∷ 0 ∷ 0 ∷ 1 ∷ 10 ∷ 0 ∷ 0 ∷ 2 ∷ 255 ∷ []

decode_data_set_fixed_example :
    decode_data_set (plain 8 4 ∷ []) nine_bytes ≡ done (cut_records (plain 8 4 ∷ []) 2 nine_bytes)
unfolding get_template_size
decode_data_set_fixed_example =
    decode_data_set_fixed (plain 8 4 ∷ []) (omega arith, tt) (omega arith) 2 1 nine_bytes refl
      (omega arith)

-- A payload that ends inside a record is no endless loop.
set_decoders_end_example :
    ((rs : List TemplateRecord) → decode_template_set 9 nine_bytes ≢ failed rs out_of_fuel)
    × ((rs : List NFv9OptionsTemplateRecord)
        → decode_nfv9_options_template_set nine_bytes ≢ failed rs out_of_fuel)
    × ((rs : List IpfixOptionsTemplateRecord)
        → decode_ipfix_options_template_set nine_bytes ≢ failed rs out_of_fuel)
    × ((rs : List DataRecord)
        → decode_data_set (enterprise ∷ []) nine_bytes ≢ failed rs out_of_fuel)
    × ((rs : List OptionsDataRecord)
        → decode_options_data_set [] (plain 8 0 ∷ []) nine_bytes ≢ failed rs out_of_fuel)
set_decoders_end_example = set_decoders_end 9 (enterprise ∷ []) [] (plain 8 0 ∷ []) nine_bytes

abbrev variable_template : TemplateRecord
variable_template = record { template_id = 260; field_count = 1; fields = enterprise ∷ [] }

abbrev one_value : List DataRecord
one_value = record { values = value_of enterprise (b'a' ∷ []) ∷ [] } ∷ []

one_value-RecordFits : All (RecordFits variable_template.fields) one_value
unfolding encode_length write_u8
one_value-RecordFits = (
  record { values = (enterprise-ValueFits (b'a' ∷ []) (omega arith), tt); nonempty = omega arith },
  tt,
)

-- Two bytes of data, two of padding, three records.
decode_data_set-padding_example :
    decode_data_set
      (enterprise ∷ [])
      (pad_flow_set_payload (concat_map (record_bytes (enterprise ∷ [])) one_value))
    ≡ done (
        one_value
        ++ replicate
            (padding (length (concat_map (record_bytes (enterprise ∷ [])) one_value)))
            (empty_record_of enterprise))
decode_data_set-padding_example =
    decode_data_set-padding variable_template enterprise refl refl one_value one_value-RecordFits
