-- ===== src/Base.antt =====
-- The names that the other modules share: the libraries', passed on, and those of the children.
mod Tests
pub mod Order
mod Lists
mod Results
mod Texts
pub mod Map
pub mod Split
pub use Tests.*
pub use Lists.*
pub use Results.*
unfoldable pub use Texts.{
  Text, lit, ◌==◌, text_ltb, starts_with, strip_prefix, ends_with, contains, split, split_once,
  rfind, contains_text, is_digit, is_lower, is_upper, is_alpha, is_alnum, to_lower, decimal,
  insert_sorted, sort, is_space, blank, trim_end, trim_start, trim_ascii, push_first,
}
pub use Texts.{==_iff, ==_refl, ==-false, ==_sym, Text-discrete}
pub use Prim.Native.Nat.{ℕ, zero, suc, ◌+◌, ◌-◌, ◌*◌, ◌/◌, ◌%◌, ◌^◌, ◌≤◌, ◌<◌}
pub use Prim.Native.String.{String}
pub use mathlib.Core.Path.{◌≡◌, refl, sym, ap, ap₂, subst, ◌∙◌, ◌≡⟨◌⟩◌, ◌∎}
pub use mathlib.Core.Logic.{◌≢◌, ◌↔◌, ◌⊎◌, inl, inr}
pub use mathlib.Core.Bool.{Bool, true, false, not, ◌&&◌, ◌||◌}
pub use mathlib.Core.Option.{Option, none, some}
pub use mathlib.Core.List.{List, [], ◌∷◌, ◌++◌, map}
pub use native.Mathlib.Omega.{arith}
