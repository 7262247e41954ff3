-- ===== src/Wire.antt =====
-- decoders/utils: the big-endian reads of `BinaryRead` (utils.go) and the writes of encode.go. A
-- `*bytes.Buffer` is the list of its unread bytes, each a number below 256; `Next(n)` takes n bytes,
-- or all that are left. A write appends to its buffer and never fails, so a writer here is the list
-- of the bytes that it appends. Of `BinaryRead` the cases for unsigned integers, strings and slices
-- of bytes and of `uint32` are here, which are what the decoders use.
mod Tests
pub mod Reads
pub mod Yields
pub mod RoundTrip
use goflow.Base.{
  ℕ, ◌+◌, ◌*◌, ◌/◌, ◌%◌, ◌^◌, List, [], ◌∷◌, ◌++◌, Read, Result, ok, err, unexpected_eof, ltb,
  if◌then◌else◌, length, take, drop, ◌>>=◌, zero, suc, invalid_type, ◌==◌,
}

-- `payload.Next(n)`
abbrev pub next : ℕ → List ℕ → List ℕ × List ℕ
next n b = (take n b, drop n b)

-- `order.Uint16(bs)` and its kin, for a big-endian order
unfoldable pub big_endian : ℕ → List ℕ → ℕ
big_endian acc [] = acc
big_endian acc (x ∷ bs) = big_endian (acc * 256 + x) bs

-- The unsigned cases of `BinaryRead`: n is the `intDataSize` of the destination.
unfoldable pub read_uint : ℕ → Read ℕ
unfolding big_endian
read_uint n payload =
    let (bs, rest) = next n payload in
    if ltb (length bs) n then err unexpected_eof else ok (big_endian 0 bs, rest)

abbrev pub read_u8 : Read ℕ
read_u8 = read_uint 1

abbrev pub read_u16 : Read ℕ
read_u16 = read_uint 2

abbrev pub read_u32 : Read ℕ
read_u32 = read_uint 4

abbrev pub read_u64 : Read ℕ
read_u64 = read_uint 8

-- The bytes of a `*string` after its length.
unfoldable pub read_exactly : ℕ → Read (List ℕ)
read_exactly n payload =
    let (bs, rest) = next n payload in
    if ltb (length bs) n then err unexpected_eof else ok (bs, rest)

-- The `*string` case of `BinaryRead`.
unfoldable pub read_string : Read (List ℕ)
unfolding read_uint read_exactly
read_string = read_u32 >>= read_exactly

-- The values of `[]uint32` in the bytes that were read.
unfoldable pub words : ℕ → List ℕ → List ℕ
words zero bs = []
words (suc n) bs = big_endian 0 (take 4 bs) ∷ words n (drop 4 bs)

-- The `[]uint32` case of `BinaryRead`, on a slice of n elements. The size of an empty slice is 0,
-- which the fast path takes for a type that it does not know.
unfoldable pub read_u32s : ℕ → Read (List ℕ)
read_u32s n payload =
    let (bs, rest) = next (4 * n) payload in
    if n == 0
    then err invalid_type
    else if ltb (length bs) (4 * n)
    then err unexpected_eof
    else ok (words n bs, rest)

unfoldable pub write_u8 : ℕ → List ℕ
write_u8 v = (v % 256) ∷ []

unfoldable pub write_u16 : ℕ → List ℕ
write_u16 v = (v / 256 % 256) ∷ (v % 256) ∷ []

unfoldable pub write_u32 : ℕ → List ℕ
write_u32 v = (v / 2 ^ 24 % 256) ∷ (v / 2 ^ 16 % 256) ∷ (v / 256 % 256) ∷ (v % 256) ∷ []

unfoldable pub write_u64 : ℕ → List ℕ
unfolding write_u32
write_u64 v = write_u32 (v / 2 ^ 32) ++ write_u32 v

unfoldable pub write_string : List ℕ → List ℕ
unfolding write_u32
write_string s = write_u32 (length s) ++ s
