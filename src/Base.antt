-- ===== src/Base.antt =====
-- The names that the other modules share: the libraries', passed on, and those of the children.
mod Tests
mod Lists
mod Loop
mod Bits
pub use Tests.*
pub use Lists.*
pub use Bits.{bit_and-clear, bit_and-bit_or, bit_xor-bit_or, bit_or_wide}
unfoldable pub use Loop.{repeat}
pub use Loop.{
  Error, Result, Result-cases, ok, err, Read, ◌>>=◌, pure, read_bind-eq-ok, read_bind-ne-err,
}
pub use Loop.{
  unexpected_eof, negative_length, empty_record, no_templates, template_not_found, id_error,
  unknown_version, store_error, flow_error, decoder_error, joined, out_of_fuel,
}
pub use Loop.{
  invalid_type, unknown_ip_version, unknown_format, too_large, invalid_length, truncated, exceeds,
  record_error, sample_error,
}
pub use Loop.{Outcome, done, failed, repeat_total, repeat_encoded}
pub use Prim.Native.Nat.{ℕ, zero, suc, ◌+◌, ◌-◌, ◌*◌, ◌/◌, ◌%◌, ◌^◌, ◌≤◌, ◌<◌}
pub use Prim.Native.Nat.{bit_and, bit_or, bit_xor}
pub use mathlib.Core.Path.{◌≡◌, refl, sym, ap, ◌∙◌, fun_ext}
pub use mathlib.Core.Logic.{◌≢◌, ◌↔◌, ◌⊎◌, inl, inr}
pub use mathlib.Core.Bool.{Bool, true, false, not, ◌&&◌, ◌||◌}
pub use mathlib.Core.Option.{Option, none, some}
unfoldable pub use mathlib.Core.List.{◌++◌, map}
pub use mathlib.Core.List.{List, [], ◌∷◌, append_assoc, append-nil}
pub use native.Mathlib.Omega.{arith}
