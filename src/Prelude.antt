-- ===== src/Prelude.antt =====
-- The names that the modules share: the libraries', passed on, and those of three children.
mod Tests
mod Lists
mod Strings
pub use Tests.*
pub use Lists.*
pub use Strings.*
unfoldable pub use Strings.{
  text_eq, contains, has_prefix, has_substring, trim_prefix, count_byte, split, join,
}
pub use Prim.Native.Nat.{ℕ, zero, suc, ◌+◌, ◌-◌, ◌*◌, ◌/◌, ◌%◌, ◌^◌, ◌≤◌, ◌<◌}
pub use mathlib.Core.Path.{◌≡◌, refl, sym, ap, ◌∙◌}
pub use mathlib.Core.Logic.{◌≢◌, ◌↔◌, ◌⊎◌, inl, inr}
pub use mathlib.Core.Bool.{Bool, true, false, ◌&&◌, ◌||◌, not}
pub use mathlib.Core.Option.{Option, none, some}
pub use mathlib.Core.List.{List, [], ◌∷◌, ◌++◌, map}
pub use native.Mathlib.Omega.{arith}
