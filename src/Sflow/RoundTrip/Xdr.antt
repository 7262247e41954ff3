-- ===== src/Sflow/RoundTrip/Xdr.antt =====
-- The strings and vectors of decoders/sflow/xdr.go on what is written, and slices of `uint32`.
use goflow.Base.{
  ℕ, suc, ◌*◌, ◌%◌, ◌^◌, ◌≤◌, ◌<◌, ◌≡◌, refl, sym, List, [], ◌∷◌, ◌++◌, append_assoc, ok, length,
  length-append, length-replicate, take-append, drop-append, concat_map, All, arith,
}
use goflow.Wire.{big_endian, words, read_u32s, write_u32}
use goflow.Wire.RoundTrip.{read_u32-write_u32}
use goflow.Sflow.Xdr.{
  xdr_padding, read_xdr_opaque_with_length, read_xdr_opaque, read_xdr_string, write_xdr_padding,
  write_xdr_opaque, write_xdr_string, read_elements, read_checked, decode_u32_vector,
  write_u32_vector,
}

abbrev pub FitsWord : ℕ → Type 0
FitsWord v = v < 2 ^ 32

pub length-write_u32 : (v : ℕ) → length (write_u32 v) ≡ 4
unfolding write_u32
length-write_u32 v = refl

pub length-write_u32s : (vs : List ℕ) → length (concat_map write_u32 vs) ≡ 4 * length vs
length-write_u32s [] = refl
length-write_u32s (v ∷ vs) = omega (
  arith,
  length-append (write_u32 v) (concat_map write_u32 vs),
  length-write_u32 v,
  length-write_u32s vs,
)

big_endian-write_u32 : (v : ℕ) → big_endian 0 (write_u32 v) ≡ v % 2 ^ 32
unfolding big_endian write_u32
big_endian-write_u32 v = omega arith

words-write_u32s :
    (vs : List ℕ) → All FitsWord vs → words (length vs) (concat_map write_u32 vs) ≡ vs
unfolding words
words-write_u32s [] fits = refl
words-write_u32s (v ∷ vs) fits =
    let small : v % 2 ^ 32 ≡ v = let h = fits.0 in omega arith in
    rw (
      take-append 4 (write_u32 v) (concat_map write_u32 vs) (length-write_u32 v),
      drop-append 4 (write_u32 v) (concat_map write_u32 vs) (length-write_u32 v),
      big_endian-write_u32 v,
      small,
      words-write_u32s vs fits.1,
    )

read_u32s-write_u32s :
    (n : ℕ) (vs rest : List ℕ)
    → All FitsWord vs
    → length vs ≡ suc n
    → read_u32s (suc n) (concat_map write_u32 vs ++ rest) ≡ ok (vs, rest)
unfolding read_u32s
read_u32s-write_u32s n vs rest fits l =
    let size : length (concat_map write_u32 vs) ≡ 4 * suc n = omega (arith, length-write_u32s vs) in
    rw
      (
        take-append (4 * suc n) (concat_map write_u32 vs) rest size,
        drop-append (4 * suc n) (concat_map write_u32 vs) rest size,
        sym l,
        words-write_u32s vs fits,
      )
      (ground (arith, size))

pub read_checked-write_u32s :
    (vs rest : List ℕ)
    → All FitsWord vs
    → length vs ≤ 1000
    → read_checked (length vs) (concat_map write_u32 vs ++ rest) ≡ ok (vs, rest)
unfolding read_checked read_elements
read_checked-write_u32s [] rest fits l = ground arith
read_checked-write_u32s (v ∷ vs) rest fits l =
    let size = length-write_u32s (v ∷ vs) in
    let all = length-append (concat_map write_u32 (v ∷ vs)) rest in
    rw (read_u32s-write_u32s (length vs) (v ∷ vs) rest fits refl) (ground (arith, size, all))

pub decode_u32_vector-write_u32_vector :
    (vs rest : List ℕ)
    → All FitsWord vs
    → length vs ≤ 1000
    → decode_u32_vector (write_u32_vector vs ++ rest) ≡ ok (vs, rest)
unfolding decode_u32_vector write_u32_vector
decode_u32_vector-write_u32_vector vs rest fits l =
    let small : length vs % 2 ^ 32 ≡ length vs = omega arith in
    simp (append_assoc, read_u32-write_u32, small) (read_checked-write_u32s vs rest fits l)

pub length-write_xdr_padding : (n : ℕ) → length (write_xdr_padding n) ≡ xdr_padding n
unfolding write_xdr_padding
length-write_xdr_padding n = length-replicate (xdr_padding n) 0

write_xdr_padding_zero : (n : ℕ) → xdr_padding n ≡ 0 → write_xdr_padding n ≡ []
unfolding write_xdr_padding
write_xdr_padding_zero n none = rw none refl

-- Bytes and their padding.
pub read_xdr_opaque_with_length-padded :
    (n : ℕ) (bs rest : List ℕ)
    → length bs ≡ n
    → read_xdr_opaque_with_length n (bs ++ (write_xdr_padding n ++ rest)) ≡ ok (bs, rest)
unfolding read_xdr_opaque_with_length
read_xdr_opaque_with_length-padded n bs rest l =
    let zeros = length-write_xdr_padding n in
    let tail = length-append (write_xdr_padding n) rest in
    let all = length-append bs (write_xdr_padding n ++ rest) in
    rw
      (
        take-append n bs (write_xdr_padding n ++ rest) l,
        drop-append n bs (write_xdr_padding n ++ rest) l,
        drop-append (xdr_padding n) (write_xdr_padding n) rest zeros,
      )
      (ground (arith, zeros, tail, all, write_xdr_padding_zero n))

-- A string whose length fits 32 bits is written with padding and read back, whatever follows it.
pub read_xdr_string-write_xdr_string :
    (s rest : List ℕ)
    → length s < 2 ^ 32
    → read_xdr_string (write_xdr_string s ++ rest) ≡ ok (s, rest)
unfolding read_xdr_string read_xdr_opaque write_xdr_string write_xdr_opaque
read_xdr_string-write_xdr_string s rest l =
    let small : length s % 2 ^ 32 ≡ length s = omega arith in
    simp (append_assoc, read_u32-write_u32, small)
      (read_xdr_opaque_with_length-padded (length s) s rest refl)
