-- ===== src/Netflow/RoundTrip/Padding.antt =====
-- `DecodeDataSet` on the padding of `padFlowSetPayload`, under a template of one field of variable
-- length.
use goflow.Base.{
  ℕ, zero, suc, ◌≡◌, inl, inr, refl, List, [], ◌∷◌, ◌++◌, append_assoc, append-nil, length,
  concat_map, All, replicate, arith, done,
}
use goflow.Wire.{write_u8}
use goflow.Netflow.Types.{Field, bytes, DataRecord, TemplateRecord}
use goflow.Netflow.Decode.Data.{decode_data_set, variable}
use goflow.Netflow.Encode.Sets.{pad_flow_set_payload, padding}
use goflow.Netflow.Encode.Data.{encode_length}
use goflow.Netflow.RoundTrip.DataSets.{RecordFits, record_bytes, decode_data_set-records}

-- The record of a template of the one field f whose value is empty.
abbrev pub empty_record_of : Field → DataRecord
empty_record_of f = record {
  values =
      record {
        pen_provided = f.pen_provided;
        type = f.type;
        length = 0;
        pen = f.pen;
        value = bytes [];
      }
      ∷ [];
}

module _ (t : TemplateRecord) (f : Field) (one : t.fields ≡ f ∷ [])
    (var : f.length ≡ variable) where
  record_bytes-empty : record_bytes t.fields (empty_record_of f) ≡ 0 ∷ []
  unfolding encode_length write_u8
  record_bytes-empty = rw (one, var)

  empty-RecordFits : RecordFits t.fields (empty_record_of f)
  unfolding encode_length write_u8
  empty-RecordFits = rw one (record {
    values = (
      record {
        pen_provided = refl;
        type = refl;
        pen = refl;
        no_length = refl;
        value = refl;
        width = inr var;
        bound = omega arith;
      },
      tt,
    );
    nonempty = rw var (omega arith);
  })

  zeros :
      (k : ℕ) → concat_map (record_bytes t.fields) (replicate k (empty_record_of f)) ≡ replicate k 0
  zeros zero = refl
  zeros (suc k) = rw (record_bytes-empty, zeros k)

  replicate-RecordFits : (k : ℕ) → All (RecordFits t.fields) (replicate k (empty_record_of f))
  replicate-RecordFits zero = tt
  replicate-RecordFits (suc k) = (empty-RecordFits, replicate-RecordFits k)

  All-append_fits :
      (xs ys : List DataRecord)
      → All (RecordFits t.fields) xs
      → All (RecordFits t.fields) ys
      → All (RecordFits t.fields) (xs ++ ys)
  All-append_fits [] ys h k = k
  All-append_fits (x ∷ xs) ys h k = (h.0, All-append_fits xs ys h.1 k)

  concat_map-append_records :
      (xs ys : List DataRecord)
      → concat_map (record_bytes t.fields) (xs ++ ys)
        ≡ concat_map (record_bytes t.fields) xs ++ concat_map (record_bytes t.fields) ys
  concat_map-append_records [] ys = refl
  concat_map-append_records (x ∷ xs) ys =
      rw (concat_map-append_records xs ys, append_assoc (record_bytes t.fields x))

  -- Under a template of one field of variable length the padded payload of a data set is decoded to
  -- the records of the set and one record with an empty value for each byte of the padding.
  pub decode_data_set-padding :
      (records : List DataRecord)
      → All (RecordFits t.fields) records
      → decode_data_set t.fields (pad_flow_set_payload (concat_map (record_bytes t.fields) records))
        ≡ done (
            records
            ++ replicate
                (padding (length (concat_map (record_bytes t.fields) records)))
                (empty_record_of f))
  unfolding pad_flow_set_payload
  decode_data_set-padding records fit =
      let k = padding (length (concat_map (record_bytes t.fields) records)) in
      let all = records ++ replicate k (empty_record_of f) in
      let read =
        decode_data_set-records t all [] (All-append_fits records _ fit (replicate-RecordFits k))
          (inl refl) in
      rw (append-nil, concat_map-append_records, zeros k) at read
