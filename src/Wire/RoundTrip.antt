-- ===== src/Wire/RoundTrip.antt =====
-- The reads of utils.go on what the writers of encode.go write.
use goflow.Base.{ℕ, ◌%◌, ◌^◌, ◌<◌, ◌≡◌, List, ◌++◌, ok, length, take-append, drop-append, arith}
use goflow.Wire.{
  read_uint, read_exactly, read_string, write_u8, write_u16, write_u32, write_u64, write_string,
}

pub read_u8-write_u8 :
    (v : ℕ) (rest : List ℕ) → read_uint 1 (write_u8 v ++ rest) ≡ ok (v % 2 ^ 8, rest)
unfolding read_uint write_u8
read_u8-write_u8 v rest = ground arith

pub read_u16-write_u16 :
    (v : ℕ) (rest : List ℕ) → read_uint 2 (write_u16 v ++ rest) ≡ ok (v % 2 ^ 16, rest)
unfolding read_uint write_u16
read_u16-write_u16 v rest = ground arith

pub read_u32-write_u32 :
    (v : ℕ) (rest : List ℕ) → read_uint 4 (write_u32 v ++ rest) ≡ ok (v % 2 ^ 32, rest)
unfolding read_uint write_u32
read_u32-write_u32 v rest = ground arith

pub read_u64-write_u64 :
    (v : ℕ) (rest : List ℕ) → read_uint 8 (write_u64 v ++ rest) ≡ ok (v % 2 ^ 64, rest)
unfolding read_uint write_u64
read_u64-write_u64 v rest = ground arith

pub read_exactly-append :
    (n : ℕ) (s rest : List ℕ) → length s ≡ n → read_exactly n (s ++ rest) ≡ ok (s, rest)
unfolding read_exactly
read_exactly-append n s rest h = rw (take-append n s rest h, drop-append n s rest h) (ground arith)

-- A string whose length fits 32 bits is read back, whatever follows it in the buffer.
pub read_string-write_string :
    (s rest : List ℕ) → length s < 2 ^ 32 → read_string (write_string s ++ rest) ≡ ok (s, rest)
unfolding read_string write_string
read_string-write_string s rest h = read_exactly-append _ s rest (omega arith)
