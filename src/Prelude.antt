-- ===== src/Prelude.antt =====
-- The names that the other modules share: the libraries', passed on, and those of the children.
mod Tests
mod Equality
mod Lists
mod Text
pub mod Order
pub use Tests.*
unfoldable pub use Equality.{Str-discrete, OptionStr-discrete, ℕ_discrete}
pub use Equality.{
  PartialEq, ◌==◌, ◌!=◌, eq_iff, eq_self, ne_self, ne-eq-false, ne_of_eq, eq-eq-false, dec_bool,
  dec_bool_iff, of_discrete, nat_eq, Str, str_eq, option_str_eq,
}
pub use Lists.*
unfoldable pub use Text.{split}
pub use Text.{
  bytes, is_ascii_digit, is_ascii_lowercase, is_ascii_uppercase, is_ascii_alphanumeric,
  is_ascii_hexdigit, is_ascii_whitespace, is_ascii, is_lower_hex, starts_with, ends_with,
  strip_prefix, strip_suffix, contains_byte, str_le,
}
pub use Prim.Native.Nat.{ℕ, zero, suc, ◌+◌, ◌-◌, ◌*◌, ◌/◌, ◌%◌, ◌^◌, ◌≤◌, ◌<◌}
pub use Prim.Native.String.{String}
pub use mathlib.Core.Path.{◌≡◌, refl, sym, ap, ◌∙◌}
pub use mathlib.Core.Logic.{◌≢◌, ◌↔◌, ◌⊎◌, inl, inr}
pub use mathlib.Core.Bool.{Bool, true, false, ◌&&◌, ◌||◌, not}
pub use mathlib.Core.Option.{Option, none, some}
pub use mathlib.Core.List.{List, [], ◌∷◌, ◌++◌, map, reverse}
pub use native.Mathlib.Omega.{arith}
