-- ===== src/Sflow/Xdr.antt =====
-- decoders/sflow/xdr.go, with `decodeU32Vector` of sflow.go and `writeU32Vector` of encode.go.
use goflow.Base.{
  ℕ, ◌-◌, ◌/◌, ◌%◌, List, [], ◌++◌, Read, ok, err, ◌>>=◌, unexpected_eof, too_large, invalid_length,
  ltb, ◌==◌, if◌then◌else◌, length, drop, replicate, concat_map,
}
use goflow.Wire.{next, read_u32, read_u32s, write_u32}

-- `(4 - (length % 4)) % 4`
abbrev pub xdr_padding : ℕ → ℕ
xdr_padding n = (4 - n % 4) % 4

unfoldable pub read_xdr_opaque_with_length : ℕ → Read (List ℕ)
read_xdr_opaque_with_length n payload =
    let (bs, rest) = next n payload in
    if ltb (length payload) n
    then err unexpected_eof
    else if xdr_padding n == 0
    then ok (bs, rest)
    else if ltb (length rest) (xdr_padding n)
    then err unexpected_eof
    else ok (bs, drop (xdr_padding n) rest)

unfoldable pub read_xdr_opaque : Read (List ℕ)
read_xdr_opaque = read_u32 >>= read_xdr_opaque_with_length

unfoldable pub read_xdr_string : Read (List ℕ)
read_xdr_string = read_xdr_opaque

unfoldable pub write_xdr_padding : ℕ → List ℕ
write_xdr_padding n = replicate (xdr_padding n) 0

unfoldable pub write_xdr_opaque : List ℕ → List ℕ
write_xdr_opaque bs = write_u32 (length bs) ++ (bs ++ write_xdr_padding (length bs))

unfoldable pub write_xdr_string : List ℕ → List ℕ
write_xdr_string s = write_xdr_opaque s

-- `make([]uint32, n)` and the read that fills it, which is left out where n is 0.
unfoldable pub read_elements : ℕ → Read (List ℕ)
read_elements n payload = if n == 0 then ok ([], payload) else read_u32s n payload

-- The checks of a length, before a slice of it is made: at most 1000, and 4 bytes for each element.
unfoldable pub read_checked : ℕ → Read (List ℕ)
read_checked n payload =
    if ltb 1000 n
    then err (too_large n)
    else if ltb (length payload / 4) n
    then err (invalid_length n)
    else read_elements n payload

unfoldable pub decode_u32_vector : Read (List ℕ)
decode_u32_vector = read_u32 >>= read_checked

unfoldable pub write_u32_vector : List ℕ → List ℕ
write_u32_vector vs = write_u32 (length vs) ++ concat_map write_u32 vs
