-- ===== src/Base/Bits.antt =====
-- The enterprise bit of a field type: what the bit operations do with bit 15 of a number below
-- 2 ^ 15, tested for each of these numbers.
use Prim.Native.Nat.{ℕ, zero, suc, ◌<◌, ◌%◌, ◌^◌, bit_and, bit_or, bit_xor}
use mathlib.Core.Path.{◌≡◌, refl}
use mathlib.Core.Bool.{Bool, true, ◌&&◌}
use native.Mathlib.Omega.{arith}
use goflow.Base.Tests.{◌==◌}

-- `t | 0x8000`
abbrev flagged : ℕ → ℕ
flagged t = bit_or t 0x8000

-- The bit is clear in a plain type and set in a flagged one, toggling it gives the type back, and
-- the flagged type is a `uint16`.
unfoldable laws_hold : ℕ → Bool
laws_hold t =
    bit_and t 0x8000 == 0
    && (bit_and (flagged t) 0x8000 == 0x8000
        && (bit_xor (flagged t) 0x8000 == t && flagged t % 2 ^ 16 == flagged t))

-- Whether the laws hold for every type below the number.
laws_scan : ℕ → Bool
laws_scan zero = true
laws_scan (suc t) = laws_scan t && laws_hold t

laws_scan_complete : laws_scan 0x8000 ≡ true
unfolding laws_scan laws_hold
laws_scan_complete = refl

laws_scan_lem : (n t : ℕ) → laws_scan n ≡ true → t < n → laws_hold t ≡ true
unfolding laws_scan
laws_scan_lem zero t scanned lt = absurd (omega arith)
laws_scan_lem (suc n) t scanned lt = ground (arith, laws_scan_lem n t)

pub bit_and-clear : (t : ℕ) → t < 0x8000 → bit_and t 0x8000 ≡ 0
unfolding laws_hold
bit_and-clear t lt = ground (arith, laws_scan_lem 0x8000 t laws_scan_complete lt)

pub bit_and-bit_or : (t : ℕ) → t < 0x8000 → bit_and (bit_or t 0x8000) 0x8000 ≡ 0x8000
unfolding laws_hold
bit_and-bit_or t lt = ground (arith, laws_scan_lem 0x8000 t laws_scan_complete lt)

pub bit_xor-bit_or : (t : ℕ) → t < 0x8000 → bit_xor (bit_or t 0x8000) 0x8000 ≡ t
unfolding laws_hold
bit_xor-bit_or t lt = ground (arith, laws_scan_lem 0x8000 t laws_scan_complete lt)

pub bit_or_wide : (t : ℕ) → t < 0x8000 → bit_or t 0x8000 % 2 ^ 16 ≡ bit_or t 0x8000
unfolding laws_hold
bit_or_wide t lt = ground (arith, laws_scan_lem 0x8000 t laws_scan_complete lt)
