-- ===== src/Netflow/RoundTrip/DataSets.antt =====
-- `DecodeDataSet` on what `encodeDataFlowSet` writes.
use goflow.Base.{
  ℕ, suc, ◌%◌, ◌≤◌, ◌<◌, ◌≡◌, ◌⊎◌, refl, ap, List, [], ◌∷◌, ◌++◌, length, length-append, concat_map,
  All, All-map, map, replicate, length-replicate, length-le-concat_map, arith, ok, true, some, done,
  repeat_encoded,
}
use goflow.Netflow.Types.{
  Field, DataField, Value, bytes, DataRecord, FlowSetHeader, TemplateRecord, template,
}
use goflow.Netflow.Decode.Data.{
  get_template_size, decode_data_record, decode_data_set, holds_record,
}
use goflow.Encoding.{EncodeResult, encode_all-eq-concat_map}
use goflow.Netflow.Encode.Sets.{pad_flow_set_payload, padding}
use goflow.Netflow.Encode.Data.{template_fields, encode_data_record, encode_data_flow_set}
use goflow.Netflow.RoundTrip.Data.{
  ValuesFit, values_bytes, encode_values-eq, decode_data_set_using_fields-values_bytes,
  values_bytes-size,
}

abbrev pub content : Value → List ℕ
content (bytes b) = b
content _ = []

abbrev pub contents : List DataField → List (List ℕ)
contents = map (λ v. content v.value)

abbrev pub record_bytes : List Field → DataRecord → List ℕ
record_bytes fs r = values_bytes fs (contents r.values)

-- A record of the template that takes a byte at least.
pub record RecordFits (fs : List Field) (r : DataRecord) : Type 0 where
  pub values : ValuesFit fs r.values (contents r.values)
  pub nonempty : 0 < length (record_bytes fs r)

length-values :
    (fs : List Field) (vs : List DataField) → ValuesFit fs vs (contents vs) → length fs ≡ length vs
length-values [] [] h = refl
length-values (f ∷ fs) (v ∷ vs) h = ap suc (length-values fs vs h.1)
length-values [] (v ∷ vs) h = absurd h
length-values (f ∷ fs) [] h = absurd h

module _ (t : TemplateRecord) where
  encode_data_record-eq :
      (r : DataRecord)
      → RecordFits t.fields r
      → encode_data_record (some (template t)) r ≡ EncodeResult.ok (record_bytes t.fields r)
  unfolding encode_data_record template_fields
  encode_data_record-eq r f = ground (
    arith,
    length-values t.fields r.values f.values,
    encode_values-eq t.fields r.values (contents r.values) f.values,
  )

  decode_data_record-record_bytes :
      (r : DataRecord) (rest : List ℕ)
      → RecordFits t.fields r
      → decode_data_record t.fields (record_bytes t.fields r ++ rest) ≡ ok (r, rest)
  unfolding decode_data_record
  decode_data_record-record_bytes r rest f =
      rw
        (decode_data_set_using_fields-values_bytes t.fields r.values (contents r.values) rest
          f.values)
        (let n = f.nonempty in ground (arith, length-append (record_bytes t.fields r) rest))

  holds-record_bytes :
      (r : DataRecord) (rest : List ℕ)
      → RecordFits t.fields r
      → holds_record (get_template_size t.fields) (record_bytes t.fields r ++ rest) ≡ true
  holds-record_bytes r rest f =
      let n = f.nonempty in
      ground (
        arith,
        length-append (record_bytes t.fields r) rest,
        values_bytes-size t.fields r.values (contents r.values) f.values,
      )

  -- The records of a template, and bytes behind them that cannot hold one, are decoded to the records.
  pub decode_data_set-records :
      (records : List DataRecord) (tail : List ℕ)
      → All (RecordFits t.fields) records
      → (length tail ≡ 0) ⊎ (length tail < get_template_size t.fields)
      → decode_data_set t.fields (concat_map (record_bytes t.fields) records ++ tail) ≡ done records
  unfolding decode_data_set
  decode_data_set-records records tail fit short =
      repeat_encoded (holds_record (get_template_size t.fields)) (decode_data_record t.fields)
        (record_bytes t.fields) tail (ground arith) _ [] records
        (omega (
          arith,
          length-append (concat_map (record_bytes t.fields) records) tail,
          length-le-concat_map (record_bytes t.fields) records
              (All-map (λ r f. f.nonempty) records fit),
        ))
        (All-map
          (λ r f rest. (holds-record_bytes r rest f, decode_data_record-record_bytes r rest f))
          records fit)

-- A data set with an id for data, under a known template, is encoded with its id and decoded to the
-- same records, if no padding is needed or `GetTemplateSize` of the template, which leaves out fields
-- of variable length, is more than 3. Each record takes a byte at least and has a value for each field
-- of the template: fewer than 2^16 bytes, as many as a field of fixed length says, with the type and
-- enterprise number of the field, and with 0 for the length.
pub decode_data_set-encode_data_flow_set :
    (t : TemplateRecord) (header : FlowSetHeader) (records : List DataRecord)
    → 256 ≤ header.id
    → All (RecordFits t.fields) records
    → (length (concat_map (record_bytes t.fields) records) % 4 ≡ 0)
      ⊎ (3 < get_template_size t.fields)
    → (payload : List ℕ) × (encode_data_flow_set header records (some (template t))
        ≡ EncodeResult.ok (payload, header.id))
      × (decode_data_set t.fields payload ≡ done records)
unfolding encode_data_flow_set pad_flow_set_payload
decode_data_set-encode_data_flow_set t header records ids fit short =
    let all =
      encode_all-eq-concat_map (encode_data_record (some (template t))) (record_bytes t.fields)
        records (All-map (λ r f. encode_data_record-eq t r f) records fit) in
    let n = length (concat_map (record_bytes t.fields) records) in
    (
      concat_map (record_bytes t.fields) records ++ replicate (padding n) 0,
      ground (arith, all),
      decode_data_set-records t records (replicate (padding n) 0) fit
          (ground (arith, length-replicate {0} {A = ℕ} (padding n) 0)),
    )
