-- ===== src/Wire/Tests.antt =====
-- Tests of the reads and writes of decoders/utils, and the theorems about them at an input.
use goflow.Base.{◌≡◌, refl, [], ◌∷◌, ◌++◌, ok, err, unexpected_eof, arith}
use goflow.Wire.{read_uint, read_u16, read_string, write_u32, write_string}
use goflow.Wire.RoundTrip.{read_string-write_string}

big_endian_order : write_u32 0x01020304 ≡ 1 ∷ 2 ∷ 3 ∷ 4 ∷ []
unfolding write_u32
big_endian_order = refl

read_short : read_u16 (7 ∷ []) ≡ err unexpected_eof
unfolding read_uint
read_short = refl

read_string-write_string_example :
    read_string (write_string (b'n' ∷ b'f' ∷ []) ++ 9 ∷ []) ≡ ok (b'n' ∷ b'f' ∷ [], 9 ∷ [])
read_string-write_string_example =
    read_string-write_string (b'n' ∷ b'f' ∷ []) (9 ∷ []) (omega arith)
