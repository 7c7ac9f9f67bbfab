-- ===== src/Base.antt =====
-- Names that the other modules share: the libraries', passed on, the Boolean tests on native
-- numbers, and the list and option functions of the children.
mod Tests
mod Lists
mod Bytes
mod Split
mod Trim
pub use Tests.*
pub use Lists.*
unfoldable pub use Bytes.{
  is_digit, is_space, lower_byte, upper_byte, to_lower, to_upper, equal_fold, trim_left, trim_space,
}
unfoldable pub use Split.{cut, split, join, cut_prefix}
pub use Split.{join-split, split-injective, Lacks, AllLack, split-join}
pub use Bytes.{Text, bytes, is_blank, text_eq, text_eq→eq, text_eq_refl, text_eq_iff}
pub use Prim.Native.Nat.{ℕ, zero, suc, ◌+◌, ◌-◌, ◌*◌, ◌/◌, ◌%◌, ◌^◌, ◌≤◌, ◌<◌}
pub use Prim.Native.String.{String, ◌++◌ as str_append}
pub use mathlib.Core.Path.{◌≡◌, refl, sym, ap, subst, ◌∙◌}
pub use mathlib.Core.Logic.{◌≢◌, ◌↔◌, ◌⊎◌, inl, inr}
pub use mathlib.Core.Bool.{Bool, true, false, not, ◌&&◌, ◌||◌}
pub use mathlib.Core.Option.{Option, none, some}
pub use mathlib.Core.List.{
  List, [], ◌∷◌, ◌++◌, map, append_assoc, append-nil, reverse, reverse_aux, reverse-reverse,
}
pub use native.Mathlib.Omega.{arith}
pub use text.Mathlib.Text.{◌==◌ as str_eq}
pub use text.Mathlib.TextEquality.{eq_iff}
pub use text.Mathlib.TextPositions.{eq_refl}
pub use Trim.{trim_space-trim_space}
