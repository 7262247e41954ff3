-- ===== src/Netflow/RoundTrip/Fields.antt =====
-- `DecodeField` on what `encodeField` writes.
use goflow.Base.{
  ℕ, zero, suc, ◌%◌, ◌^◌, ◌<◌, ◌≡◌, refl, List, [], ◌∷◌, ◌++◌, append_assoc, length, concat_map,
  All, arith, ok, Bool, true, false, Bool-cases, inl, inr, if◌then◌else◌, bit_or, ◌&&◌,
  bit_and-clear, bit_and-bit_or, bit_xor-bit_or, bit_or_wide,
}
use goflow.Wire.{write_u32}
use goflow.Wire.RoundTrip.{read_u16-write_u16, read_u32-write_u32}
use goflow.Netflow.Types.{Field}
use goflow.Netflow.Decode.Templates.{decode_pen, decode_field, decode_fields}
use goflow.Netflow.Encode.Sets.{encode_field}

-- A field that the wire can carry: with enterprise numbers (`pen`) the type has 15 bits, without
-- them 16 and there is no enterprise number.
pub record FieldFits (pen : Bool) (f : Field) : Type 0 where
  pub type : f.type < (if pen then 2 ^ 15 else 2 ^ 16)
  pub length : f.length < 2 ^ 16
  pub number : f.pen < 2 ^ 32
  pub absent : f.pen_provided ≡ false → f.pen ≡ 0
  pub plain : pen ≡ false → f.pen_provided ≡ false

abbrev pub type_id : Bool → Field → ℕ
type_id pen f = if pen && f.pen_provided then bit_or f.type 0x8000 else f.type

type_id-mod : (pen : Bool) (f : Field) → FieldFits pen f → type_id pen f % 2 ^ 16 ≡ type_id pen f
type_id-mod false f fits = let h = fits.type in omega arith
type_id-mod true f fits =
    let h = fits.type in
    elim (Bool-cases f.pen_provided) [
      | inl p ↦ rw p (bit_or_wide f.type h)
      | inr n ↦ rw n (omega arith)
    ]

abbrev number_bytes : Bool → Field → List ℕ
number_bytes pen f = if pen && f.pen_provided then write_u32 f.pen else []

decode_pen-encode :
    (pen : Bool) (f : Field) (rest : List ℕ)
    → FieldFits pen f
    → decode_pen pen (type_id pen f) f.length (number_bytes pen f ++ rest) ≡ ok (f, rest)
unfolding decode_pen
decode_pen-encode false f rest fits = ground (arith, fits.plain, fits.absent)
decode_pen-encode true f rest fits =
    let h = fits.type in
    elim (Bool-cases f.pen_provided) [
      | inl p ↦
          rw (p, bit_and-bit_or f.type h, read_u32-write_u32, bit_xor-bit_or f.type h)
            (let k = fits.number in ground arith)
      | inr n ↦ rw (n, bit_and-clear f.type h) (ground (arith, fits.absent n))
    ]

pub decode_field-encode_field :
    (pen : Bool) (f : Field) (rest : List ℕ)
    → FieldFits pen f
    → decode_field pen (encode_field pen f ++ rest) ≡ ok (f, rest)
unfolding decode_field encode_field
decode_field-encode_field pen f rest fits =
    let k = fits.length in
    let same : f.length % 2 ^ 16 ≡ f.length = omega arith in
    simp (append_assoc, read_u16-write_u16, type_id-mod pen f fits, same)
      (decode_pen-encode pen f rest fits)

pub decode_fields-encode_fields :
    (pen : Bool) (n : ℕ) (fs : List Field) (rest : List ℕ)
    → length fs ≡ n
    → All (FieldFits pen) fs
    → decode_fields pen n (concat_map (encode_field pen) fs ++ rest) ≡ ok (fs, rest)
unfolding decode_fields
decode_fields-encode_fields pen zero [] rest l h = refl
decode_fields-encode_fields pen zero (f ∷ fs) rest l h = absurd (omega arith)
decode_fields-encode_fields pen (suc n) [] rest l h = absurd (omega arith)
decode_fields-encode_fields pen (suc n) (f ∷ fs) rest l h = rw (
  append_assoc (encode_field pen f),
  decode_field-encode_field pen f (concat_map (encode_field pen) fs ++ rest) h.0,
  decode_fields-encode_fields pen n fs rest (omega arith) h.1,
)
