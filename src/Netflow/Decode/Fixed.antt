-- ===== src/Netflow/Decode/Fixed.antt =====
-- `DecodeDataSet` under a template whose fields all have a fixed length.
use goflow.Base.{
  ℕ, zero, suc, ◌+◌, ◌*◌, ◌≤◌, ◌<◌, ◌≡◌, ◌≢◌, refl, List, [], ◌∷◌, ◌++◌, append_assoc, append-nil,
  length, length-drop, All, arith, ok, true, le→leb, drop, take, done, repeat,
}
use goflow.Netflow.Types.{Field, DataField, bytes, DataRecord}
use goflow.Netflow.Decode.Data.{
  get_template_size, decode_length, decode_value, decode_values, decode_data_set_using_fields,
  decode_data_record, decode_data_set, holds_record, variable, take_value,
}

abbrev pub IsFixed : Field → Type 0
IsFixed f = f.length ≢ variable

-- The reference: each field has the next bytes of its length.
pub slices : List Field → List ℕ → List DataField
slices [] b = []
slices (f ∷ fs) b =
    record {
      pen_provided = f.pen_provided;
      type = f.type;
      length = 0;
      pen = f.pen;
      value = bytes (take f.length b);
    }
    ∷ slices fs (drop f.length b)

-- What the fields of a template leave.
after : List Field → List ℕ → List ℕ
after [] b = b
after (f ∷ fs) b = after fs (drop f.length b)

-- n records, one after the other.
pub cut_records : List Field → ℕ → List ℕ → List DataRecord
unfolding slices after
cut_records fs zero b = []
cut_records fs (suc n) b = record { values = slices fs b } ∷ cut_records fs n (after fs b)

decode_value_fixed :
    (f : Field) (b : List ℕ) → IsFixed f → decode_value f b ≡ take_value f f.length b
unfolding decode_value decode_length
decode_value_fixed f b h = ground arith

decode_values_fixed :
    (fs : List Field) (b : List ℕ)
    → All IsFixed fs
    → decode_values fs b ≡ ok (slices fs b, after fs b)
unfolding decode_values slices after
decode_values_fixed [] b h = refl
decode_values_fixed (f ∷ fs) b h =
    rw (decode_value_fixed f b h.0, decode_values_fixed fs (drop f.length b) h.1)

length-after :
    (fs : List Field) (b : List ℕ)
    → All IsFixed fs
    → get_template_size fs ≤ length b
    → length (after fs b) + get_template_size fs ≡ length b
unfolding after get_template_size
length-after [] b h le = omega arith
length-after (f ∷ fs) b h le =
    let fixed = h.0 in ground (arith, length-drop f.length b, length-after fs (drop f.length b) h.1)

module _ (fs : List Field) (fixed : All IsFixed fs) (positive : 0 < get_template_size fs) where
  decode_data_record_fixed :
      (b : List ℕ)
      → get_template_size fs ≤ length b
      → decode_data_record fs b ≡ ok (record { values = slices fs b }, after fs b)
  unfolding decode_data_record decode_data_set_using_fields
  decode_data_record_fixed b le =
      rw (le→leb (get_template_size fs) (length b) le, decode_values_fixed fs b fixed)
        (ground (arith, length-after fs b fixed le))

  repeat_fixed :
      (fuel n left : ℕ) (acc : List DataRecord) (b : List ℕ)
      → length b ≤ fuel
      → length b ≡ n * get_template_size fs + left
      → left < get_template_size fs
      → repeat (holds_record (get_template_size fs)) (decode_data_record fs) fuel acc b
        ≡ done (acc ++ cut_records fs n b)
  unfolding repeat cut_records
  repeat_fixed zero zero left acc b f e lt = rw append-nil (ground arith)
  repeat_fixed zero (suc n) left acc b f e lt = absurd (omega arith)
  repeat_fixed (suc fuel) zero left acc b f e lt = rw append-nil (ground arith)
  repeat_fixed (suc fuel) (suc n) left acc b f e lt =
      let le : get_template_size fs ≤ length b = omega arith in
      let rest = length-after fs b fixed le in
      let more : holds_record (get_template_size fs) b ≡ true = ground arith in
      rw (
        more,
        decode_data_record_fixed b le,
        repeat_fixed fuel n left (acc ++ record { values = slices fs b } ∷ []) (after fs b)
            (omega arith) (omega arith) lt,
        append_assoc,
      )

  -- Under a template whose fields all have a fixed length, and together at least one byte, a payload
  -- of n records and a remainder shorter than a record is decoded to the n records, each field with
  -- the next bytes of its length, whatever the bytes are; the remainder is skipped with no error.
  pub decode_data_set_fixed :
      (n left : ℕ) (b : List ℕ)
      → length b ≡ n * get_template_size fs + left
      → left < get_template_size fs
      → decode_data_set fs b ≡ done (cut_records fs n b)
  unfolding decode_data_set
  decode_data_set_fixed n left b e lt = repeat_fixed (length b) n left [] b (omega arith) e lt
