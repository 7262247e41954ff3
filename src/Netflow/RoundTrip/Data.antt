-- ===== src/Netflow/RoundTrip/Data.antt =====
-- The values of a data record: what `encodeDataFieldValue` writes and how it is read.
use goflow.Base.{
  ℕ, ◌^◌, ◌≤◌, ◌<◌, ◌≡◌, ◌⊎◌, inl, inr, refl, List, [], ◌∷◌, ◌++◌, append_assoc, length,
  length-append, arith, ok, false, Bool-cases, if◌then◌else◌, ◌==◌, ==_iff, ltb, le→leb, some,
  take-append, drop-append,
}
use goflow.Wire.{write_u8}
use goflow.Wire.RoundTrip.{read_u8-write_u8, read_u16-write_u16}
use goflow.Netflow.Types.{Field, DataField, bytes}
use goflow.Netflow.Decode.Data.{
  get_template_size, decode_length, take_value, decode_value, decode_values,
  decode_data_set_using_fields, variable,
}
use goflow.Encoding.{EncodeResult}
use goflow.Netflow.Encode.Data.{encode_length, encode_data_field_value, encode_values}

-- The value of a field, with the names that the template gives it; a fixed length is the value's.
pub record ValueFits (f : Field) (v : DataField) (b : List ℕ) : Type 0 where
  pub pen_provided : v.pen_provided ≡ f.pen_provided
  pub type : v.type ≡ f.type
  pub pen : v.pen ≡ f.pen
  pub no_length : v.length ≡ 0
  pub value : v.value ≡ bytes b
  pub width : (f.length ≡ length b) ⊎ (f.length ≡ variable)
  pub bound : length b < 2 ^ 16

abbrev value_bytes : Field → List ℕ → List ℕ
value_bytes f b = if f.length == variable then encode_length (length b) ++ b else b

decode_length-encode_length :
    (n : ℕ) (rest : List ℕ)
    → n < 2 ^ 16
    → decode_length variable (encode_length n ++ rest) ≡ ok (n, rest)
unfolding decode_length encode_length
decode_length-encode_length n rest h = elim (Bool-cases (ltb n 255)) [
  | inl small ↦ rw (small, read_u8-write_u8) (ground arith)
  | inr large ↦
      rw large
        (rw (append_assoc (write_u8 0xff), read_u8-write_u8, read_u16-write_u16) (ground arith))
]

decode_length-fixed :
    (n : ℕ) (rest : List ℕ) → (n == variable) ≡ false → decode_length n rest ≡ ok (n, rest)
unfolding decode_length
decode_length-fixed n rest h = rw h

module _ (f : Field) (v : DataField) (b : List ℕ) (fits : ValueFits f v b) where
  encode_value-eq : encode_data_field_value v (some f) ≡ EncodeResult.ok (value_bytes f b)
  unfolding encode_data_field_value
  encode_value-eq = rw fits.value (let k = fits.bound in let w = fits.width in ground arith)

  take_value-value_bytes : (rest : List ℕ) → take_value f (length b) (b ++ rest) ≡ ok (v, rest)
  take_value-value_bytes rest =
      rw (take-append (length b) b rest refl, drop-append (length b) b rest refl)
        (ground (arith, fits.pen_provided, fits.type, fits.pen, fits.no_length, fits.value))

  decode_value-value_bytes :
      (rest : List ℕ) → decode_value f (value_bytes f b ++ rest) ≡ ok (v, rest)
  unfolding decode_value
  decode_value-value_bytes rest = elim (Bool-cases (f.length == variable)) [
    | inl var ↦
        rw
          (
            var,
            (==_iff f.length variable).0 var,
            append_assoc (encode_length (length b)),
            decode_length-encode_length (length b) (b ++ rest) fits.bound,
          )
          (take_value-value_bytes rest)
    | inr fixed ↦
        let same : f.length ≡ length b = (let w = fits.width in ground arith) in
        rw (fixed, decode_length-fixed f.length (b ++ rest) fixed, same)
          (take_value-value_bytes rest)
  ]

  -- A value takes what the template says, or a byte at least.
  value_bytes-size : (if f.length == variable then 0 else f.length) ≤ length (value_bytes f b)
  value_bytes-size = let w = fits.width in ground arith

-- The values of a record beside the fields of a template, and their bytes.
abbrev pub ValuesFit : List Field → List DataField → List (List ℕ) → Type 0
ValuesFit [] [] [] = Unit
ValuesFit (f ∷ fs) (v ∷ vs) (b ∷ bs) = ValueFits f v b × ValuesFit fs vs bs
ValuesFit _ _ _ = ⊥

abbrev pub values_bytes : List Field → List (List ℕ) → List ℕ
values_bytes [] bs = []
values_bytes (f ∷ fs) [] = []
values_bytes (f ∷ fs) (b ∷ bs) = value_bytes f b ++ values_bytes fs bs

pub encode_values-eq :
    (fs : List Field) (vs : List DataField) (bs : List (List ℕ))
    → ValuesFit fs vs bs
    → encode_values vs (some fs) ≡ EncodeResult.ok (values_bytes fs bs)
unfolding encode_values
encode_values-eq [] [] [] h = refl
encode_values-eq (f ∷ fs) (v ∷ vs) (b ∷ bs) h =
    rw (encode_value-eq f v b h.0, encode_values-eq fs vs bs h.1)
encode_values-eq [] [] (b ∷ bs) h = absurd h
encode_values-eq [] (v ∷ vs) bs h = absurd h
encode_values-eq (f ∷ fs) [] bs h = absurd h
encode_values-eq (f ∷ fs) (v ∷ vs) [] h = absurd h

decode_values-values_bytes :
    (fs : List Field) (vs : List DataField) (bs : List (List ℕ)) (rest : List ℕ)
    → ValuesFit fs vs bs
    → decode_values fs (values_bytes fs bs ++ rest) ≡ ok (vs, rest)
unfolding decode_values
decode_values-values_bytes [] [] [] rest h = refl
decode_values-values_bytes (f ∷ fs) (v ∷ vs) (b ∷ bs) rest h = rw (
  append_assoc (value_bytes f b),
  decode_value-value_bytes f v b h.0 (values_bytes fs bs ++ rest),
  decode_values-values_bytes fs vs bs rest h.1,
)
decode_values-values_bytes [] [] (b ∷ bs) rest h = absurd h
decode_values-values_bytes [] (v ∷ vs) bs rest h = absurd h
decode_values-values_bytes (f ∷ fs) [] bs rest h = absurd h
decode_values-values_bytes (f ∷ fs) (v ∷ vs) [] rest h = absurd h

pub values_bytes-size :
    (fs : List Field) (vs : List DataField) (bs : List (List ℕ))
    → ValuesFit fs vs bs
    → get_template_size fs ≤ length (values_bytes fs bs)
unfolding get_template_size
values_bytes-size [] [] [] h = omega arith
values_bytes-size (f ∷ fs) (v ∷ vs) (b ∷ bs) h = ground (
  arith,
  value_bytes-size f v b h.0,
  values_bytes-size fs vs bs h.1,
  length-append (value_bytes f b) (values_bytes fs bs),
)
values_bytes-size [] [] (b ∷ bs) h = absurd h
values_bytes-size [] (v ∷ vs) bs h = absurd h
values_bytes-size (f ∷ fs) [] bs h = absurd h
values_bytes-size (f ∷ fs) (v ∷ vs) [] h = absurd h

-- The same for `DecodeDataSetUsingFields`, whose test on the size of the payload passes.
pub decode_data_set_using_fields-values_bytes :
    (fs : List Field) (vs : List DataField) (bs : List (List ℕ)) (rest : List ℕ)
    → ValuesFit fs vs bs
    → decode_data_set_using_fields fs (values_bytes fs bs ++ rest) ≡ ok (vs, rest)
unfolding decode_data_set_using_fields
decode_data_set_using_fields-values_bytes fs vs bs rest h =
    rw
      (le→leb (get_template_size fs) (length (values_bytes fs bs ++ rest))
        (omega (arith, values_bytes-size fs vs bs h, length-append (values_bytes fs bs) rest)))
      (decode_values-values_bytes fs vs bs rest h)
