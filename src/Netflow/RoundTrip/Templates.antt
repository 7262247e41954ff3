-- ===== src/Netflow/RoundTrip/Templates.antt =====
-- `DecodeTemplateSet` on what `encodeTemplateFlowSet` writes.
use goflow.Base.{
  ℕ, ◌%◌, ◌^◌, ◌≤◌, ◌<◌, ◌≡◌, ◌⊎◌, List, [], ◌++◌, append_assoc, length, length-append,
  length-replicate, replicate, concat_map, All, All-map, length-le-concat_map, arith, ok, Read,
  ◌==◌, le→leb, sym, done, repeat, repeat_encoded,
}
use goflow.Wire.{write_u16}
use goflow.Wire.RoundTrip.{read_u16-write_u16}
use goflow.Netflow.Types.{FlowSetHeader, TemplateRecord}
use goflow.Netflow.Decode.Templates.{decode_template, decode_template_set, at_least_four}
use goflow.Encoding.{EncodeResult, encode_all-eq-concat_map}
use goflow.Netflow.Encode.Sets.{
  encode_field, encode_template, encode_template_flow_set, pad_flow_set_payload, padding,
}
use goflow.Netflow.RoundTrip.Fields.{FieldFits, decode_fields-encode_fields}

-- A record that is encoded to `bytes`, and read back from them whatever follows.
abbrev pub ReadsBack :
    {A : Type 0} → (A → EncodeResult (List ℕ)) → Read A → (A → List ℕ) → A → Type 0
ReadsBack encode read bytes x =
    (encode x ≡ EncodeResult.ok (bytes x))
    × (4 ≤ length (bytes x))
    × ((rest : List ℕ) → read (bytes x ++ rest) ≡ ok (x, rest))

padding-lt : (n : ℕ) → padding n < 4
padding-lt n = omega arith

module _ {A : Type 0} (encode : A → EncodeResult (List ℕ)) (read : Read A)
    (bytes : A → List ℕ) where
  -- The loop of a template set decoder over the padded records.
  pub decode_padded :
      (xs : List A)
      → All (ReadsBack encode read bytes) xs
      → let payload = pad_flow_set_payload (concat_map bytes xs) in
        repeat at_least_four read (length payload) [] payload ≡ done xs
  unfolding pad_flow_set_payload
  decode_padded xs h =
      let tail = replicate (padding (length (concat_map bytes xs))) 0 in
      repeat_encoded at_least_four read bytes tail
        (ground (
          arith,
          length-replicate {0} {A = ℕ} (padding (length (concat_map bytes xs))) 0,
          padding-lt (length (concat_map bytes xs)),
        ))
        (length (concat_map bytes xs ++ tail)) [] xs
        (omega (
          arith,
          length-append (concat_map bytes xs) tail,
          length-le-concat_map bytes xs (All-map (λ x p. let four = p.1 in omega arith) xs h),
        ))
        (All-map
          (λ x p rest.
            (let four = p.1 in le→leb 4 _ (omega (arith, length-append (bytes x) rest)), p.2 rest))
          xs h)

-- A template as the wire can carry it: the count is that of the fields.
pub record TemplateFits (version : ℕ) (t : TemplateRecord) : Type 0 where
  pub template_id : t.template_id < 2 ^ 16
  pub counted : t.field_count ≡ length t.fields
  pub field_count : t.field_count < 2 ^ 16
  pub fields : All (FieldFits (version == 10)) t.fields

abbrev template_bytes : ℕ → TemplateRecord → List ℕ
template_bytes version t =
    write_u16 t.template_id
    ++ (write_u16 t.field_count ++ concat_map (encode_field (version == 10)) t.fields)

template-ReadsBack :
    (version : ℕ) (t : TemplateRecord)
    → TemplateFits version t
    → ReadsBack (encode_template version) (decode_template version) (template_bytes version) t
unfolding encode_template decode_template
template-ReadsBack version t f =
    let i = f.template_id in
    let c = f.field_count in
    let same_id : t.template_id % 2 ^ 16 ≡ t.template_id = omega arith in
    let same_count : t.field_count % 2 ^ 16 ≡ t.field_count = omega arith in
    (
      ground (arith, f.counted),
      (unfold write_u16 in omega arith),
      λ rest.
          simp (append_assoc, read_u16-write_u16, same_id, same_count)
            (rw (
              decode_fields-encode_fields (version == 10) t.field_count t.fields rest
                (sym f.counted) f.fields)),
    )

-- The ids that `encodeTemplateFlowSet` takes, and the id that it writes.
abbrev pub TemplateSetId : ℕ → ℕ → ℕ → Type 0
TemplateSetId version given written =
    ((version ≡ 9) × (given ≡ 0) × (written ≡ 0))
    ⊎ ((version ≡ 10) × ((given ≡ 0) ⊎ (given ≡ 2)) × (written ≡ 2))

-- A template set under a fitting id, with templates whose counts are right and whose fields fit the
-- wire, is encoded with the set id of its version, and the payload, padding included, is decoded to
-- the same templates.
pub decode_template_set-encode_template_flow_set :
    (version id : ℕ) (header : FlowSetHeader) (records : List TemplateRecord)
    → TemplateSetId version header.id id
    → All (TemplateFits version) records
    → (payload : List ℕ) × (encode_template_flow_set version header records
        ≡ EncodeResult.ok (payload, id))
      × (decode_template_set version payload ≡ done records)
unfolding decode_template_set encode_template_flow_set
decode_template_set-encode_template_flow_set version id header records ids fit =
    let good = All-map (template-ReadsBack version) records fit in
    let all =
      encode_all-eq-concat_map (encode_template version) (template_bytes version) records
        (All-map (λ x p. p.0) records good) in
    (
      pad_flow_set_payload (concat_map (template_bytes version) records),
      ground (arith, all),
      decode_padded (encode_template version) (decode_template version) (template_bytes version)
          records good,
    )
