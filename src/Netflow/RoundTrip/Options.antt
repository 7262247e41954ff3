-- ===== src/Netflow/RoundTrip/Options.antt =====
-- The decoders of options template sets on what the encoders write.
use goflow.Base.{
  ℕ, ◌+◌, ◌-◌, ◌*◌, ◌/◌, ◌%◌, ◌^◌, ◌<◌, ◌≡◌, ◌⊎◌, List, ◌++◌, append_assoc, length, concat_map, All,
  All-map, arith, true, false, ltb, done,
}
use goflow.Wire.{write_u16}
use goflow.Wire.RoundTrip.{read_u16-write_u16}
use goflow.Netflow.Types.{FlowSetHeader, NFv9OptionsTemplateRecord, IpfixOptionsTemplateRecord}
use goflow.Netflow.Decode.Templates.{
  decode_nfv9_options_template, decode_nfv9_options_template_set, decode_ipfix_options_template,
  decode_ipfix_options_template_set,
}
use goflow.Encoding.{EncodeResult, encode_all-eq-concat_map}
use goflow.Netflow.Encode.Sets.{
  encode_field, encode_nfv9_options_template, encode_nfv9_options_template_flow_set,
  encode_ipfix_options_template, encode_ipfix_options_template_flow_set, pad_flow_set_payload,
}
use goflow.Netflow.RoundTrip.Fields.{FieldFits, decode_fields-encode_fields}
use goflow.Netflow.RoundTrip.Templates.{ReadsBack, decode_padded}

-- An options template of NetFlow v9: the lengths are those of the fields, four bytes each.
pub record NFv9OptionsFits (t : NFv9OptionsTemplateRecord) : Type 0 where
  pub template_id : t.template_id < 2 ^ 16
  pub scope_length : t.scope_length < 2 ^ 16
  pub option_length : t.option_length < 2 ^ 16
  pub scope_count : t.scope_length ≡ 4 * length t.scopes
  pub option_count : t.option_length ≡ 4 * length t.options
  pub scopes : All (FieldFits false) t.scopes
  pub options : All (FieldFits false) t.options

abbrev nfv9_options_bytes : NFv9OptionsTemplateRecord → List ℕ
nfv9_options_bytes t =
    write_u16 t.template_id
    ++ (write_u16 t.scope_length
        ++ (write_u16 t.option_length
            ++ (concat_map (encode_field false) t.scopes
                ++ concat_map (encode_field false) t.options)))

nfv9_options-ReadsBack :
    (t : NFv9OptionsTemplateRecord)
    → NFv9OptionsFits t
    → ReadsBack encode_nfv9_options_template decode_nfv9_options_template nfv9_options_bytes t
unfolding encode_nfv9_options_template decode_nfv9_options_template
nfv9_options-ReadsBack t f =
    let i = f.template_id in
    let s = f.scope_length in
    let o = f.option_length in
    let sc = f.scope_count in
    let oc = f.option_count in
    let same_id : t.template_id % 2 ^ 16 ≡ t.template_id = omega arith in
    let same_scope : t.scope_length % 2 ^ 16 ≡ t.scope_length = omega arith in
    let same_option : t.option_length % 2 ^ 16 ≡ t.option_length = omega arith in
    (
      ground arith,
      (unfold write_u16 in omega arith),
      λ rest.
          simp (append_assoc, read_u16-write_u16, same_id, same_scope, same_option)
            (rw (
              decode_fields-encode_fields false (t.scope_length / 4) t.scopes
                  (concat_map (encode_field false) t.options ++ rest) (omega arith) f.scopes,
              decode_fields-encode_fields false (t.option_length / 4) t.options rest (omega arith)
                  f.options,
            )),
    )

-- An options template set of NetFlow v9 with the id 0 or 1 is encoded with the id 1, and the padded
-- payload is decoded to the same templates, where the two lengths of each are those of its scopes and
-- options, four bytes a field, the numbers have 16 bits, and no field has an enterprise number.
pub decode_nfv9_options_template_set-encode_nfv9_options_template_flow_set :
    (header : FlowSetHeader) (records : List NFv9OptionsTemplateRecord)
    → (header.id ≡ 0) ⊎ (header.id ≡ 1)
    → All NFv9OptionsFits records
    → (payload : List ℕ) × (encode_nfv9_options_template_flow_set header records
        ≡ EncodeResult.ok (payload, 1))
      × (decode_nfv9_options_template_set payload ≡ done records)
unfolding decode_nfv9_options_template_set encode_nfv9_options_template_flow_set
decode_nfv9_options_template_set-encode_nfv9_options_template_flow_set header records ids fit =
    let good = All-map nfv9_options-ReadsBack records fit in
    let all =
      encode_all-eq-concat_map encode_nfv9_options_template nfv9_options_bytes records
        (All-map (λ x p. p.0) records good) in
    (
      pad_flow_set_payload (concat_map nfv9_options_bytes records),
      ground (arith, all),
      decode_padded encode_nfv9_options_template decode_nfv9_options_template nfv9_options_bytes
          records good,
    )

-- An options template of IPFIX: the counts are those of the fields.
pub record IpfixOptionsFits (t : IpfixOptionsTemplateRecord) : Type 0 where
  pub template_id : t.template_id < 2 ^ 16
  pub field_count : t.field_count < 2 ^ 16
  pub counted : t.field_count ≡ length t.scopes + length t.options
  pub scope_count : t.scope_field_count ≡ length t.scopes
  pub scopes : All (FieldFits true) t.scopes
  pub options : All (FieldFits true) t.options

abbrev ipfix_options_bytes : IpfixOptionsTemplateRecord → List ℕ
ipfix_options_bytes t =
    write_u16 t.template_id
    ++ (write_u16 t.field_count
        ++ (write_u16 t.scope_field_count
            ++ (concat_map (encode_field true) t.scopes
                ++ concat_map (encode_field true) t.options)))

ipfix_options-ReadsBack :
    (t : IpfixOptionsTemplateRecord)
    → IpfixOptionsFits t
    → ReadsBack encode_ipfix_options_template decode_ipfix_options_template ipfix_options_bytes t
unfolding encode_ipfix_options_template decode_ipfix_options_template
ipfix_options-ReadsBack t f =
    let i = f.template_id in
    let c = f.field_count in
    let n = f.counted in
    let sc = f.scope_count in
    let same_id : t.template_id % 2 ^ 16 ≡ t.template_id = omega arith in
    let same_count : t.field_count % 2 ^ 16 ≡ t.field_count = omega arith in
    let same_scope : t.scope_field_count % 2 ^ 16 ≡ t.scope_field_count = omega arith in
    let in_order : ltb t.field_count t.scope_field_count ≡ false = ground arith in
    (
      ground arith,
      (unfold write_u16 in omega arith),
      λ rest.
          simp (append_assoc, read_u16-write_u16, same_id, same_count, same_scope)
            (rw (
              decode_fields-encode_fields true t.scope_field_count t.scopes
                  (concat_map (encode_field true) t.options ++ rest) (omega arith) f.scopes,
              in_order,
              decode_fields-encode_fields true (t.field_count - t.scope_field_count) t.options rest
                  (omega arith) f.options,
            )),
    )

-- An options template set of IPFIX with the id 0 or 3 is encoded with the id 3, and the padded payload
-- is decoded to the same templates, where the two counts of each are those of its fields, the numbers
-- have 16 bits, and the fields have types of 15 bits and an enterprise number, of 32 bits, only with
-- the flag.
pub decode_ipfix_options_template_set-encode_ipfix_options_template_flow_set :
    (header : FlowSetHeader) (records : List IpfixOptionsTemplateRecord)
    → (header.id ≡ 0) ⊎ (header.id ≡ 3)
    → All IpfixOptionsFits records
    → (payload : List ℕ) × (encode_ipfix_options_template_flow_set header records
        ≡ EncodeResult.ok (payload, 3))
      × (decode_ipfix_options_template_set payload ≡ done records)
unfolding decode_ipfix_options_template_set encode_ipfix_options_template_flow_set
decode_ipfix_options_template_set-encode_ipfix_options_template_flow_set header records ids fit =
    let good = All-map ipfix_options-ReadsBack records fit in
    let all =
      encode_all-eq-concat_map encode_ipfix_options_template ipfix_options_bytes records
        (All-map (λ x p. p.0) records good) in
    (
      pad_flow_set_payload (concat_map ipfix_options_bytes records),
      ground (arith, all),
      decode_padded encode_ipfix_options_template decode_ipfix_options_template ipfix_options_bytes
          records good,
    )
