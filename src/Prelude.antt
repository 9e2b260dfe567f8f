-- ===== src/Prelude.antt =====
-- The names that the other modules share: the libraries', passed on, and those of the children.
mod Tests
mod Lists
mod Utf16
mod Int
mod Compare
pub use Tests.*
pub use Lists.*
unfoldable pub use Utf16.{text_eq, includes}
pub use Utf16.{Text, codes, text_eq→eq, text_eq_refl, text_eq_iff}
unfoldable pub use Int.{int_eq}
unfoldable pub use Compare.{text_order, not_after}
pub use Compare.{
  Sign, before, same, after, opposite, text_order_refl, text_order_swap, text_order_trans,
  text_order_append, same_text,
}
pub use Int.{ℤ, pos, negsuc, int_eq_iff}
pub use Prim.Native.Nat.{ℕ, zero, suc, ◌+◌, ◌-◌, ◌*◌, ◌/◌, ◌%◌, ◌^◌, ◌≤◌, ◌<◌, max}
pub use Prim.Native.String.{String}
pub use mathlib.Core.Path.{◌≡◌, refl, sym, ap, ◌∙◌}
pub use mathlib.Core.Logic.{◌≢◌, ◌↔◌, ◌⊎◌, inl, inr}
pub use mathlib.Core.Bool.{Bool, true, false, not, ◌&&◌, ◌||◌}
pub use mathlib.Core.Option.{Option, none, some}
pub use mathlib.Core.List.{List, [], ◌∷◌, ◌++◌, map}
pub use native.Mathlib.Omega.{arith}
