-- ===== src/Prelude.antt =====
-- The names that the other modules share: the libraries', passed on, and those of the children.
mod Tests
mod Lists
mod Strings
pub mod Cuts
pub mod TextOrder
pub mod Words
pub mod Decimal
pub mod Numerals
pub mod Trimmed
pub use Tests.*
pub use Lists.*
pub use Strings.{
  Text, codes, text_eq, text_eq_iff, text_eq_refl, text_eq_ne, is_space, lower, to_lower,
  drop_space, close_field, fields_from, fields, join,
}
unfoldable pub use Strings.{trim, text_ltb}
pub use Prim.Native.Nat.{ℕ, zero, suc, ◌+◌, ◌-◌, ◌*◌, ◌/◌, ◌%◌, ◌^◌, ◌≤◌, ◌<◌, max}
pub use mathlib.Core.Path.{◌≡◌, refl, sym, ap, ◌∙◌, subst}
pub use mathlib.Core.Logic.{◌≢◌, ◌↔◌, ◌⊎◌, inl, inr}
pub use mathlib.Core.Bool.{Bool, true, false, ◌&&◌, ◌||◌, not}
pub use mathlib.Core.Option.{Option, none, some}
pub use mathlib.Core.List.{List, [], ◌∷◌, ◌++◌, map}
pub use native.Mathlib.Omega.{arith}
