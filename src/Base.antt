-- ===== src/Base.antt =====
-- The names that the other modules share: library names passed on, Boolean tests, Go strings as
-- byte lists, decimal numbers and results with an error text.
mod Tests
mod Lists
mod Bytes
mod Decimal
mod Outcome
unfoldable pub use Tests.*
unfoldable pub use Lists.*
unfoldable pub use Bytes.*
unfoldable pub use Outcome.*
unfoldable pub use Decimal.*
unfoldable pub use Bytes.Space.{trim_space}
unfoldable pub use Bytes.Case.{to_lower, to_upper, equal_fold}
unfoldable pub use Bytes.Cut.{trim_set, trim_right_set, join, is_ascii}
unfoldable pub use Bytes.Quote.{quote}
unfoldable pub use Bytes.Split.{split, has_suffix, replace_pair}
unfoldable pub use Bytes.Sort.{sort_texts}
pub use Bytes.Split.{has_suffix_sound, has_suffix-append, has_prefix_sound}
pub use Bytes.Sort.Sorted.{
  AtMost, AtMost-refl, All-Occurs, IsSorted, Occurs, sort_texts-IsSorted, sort_texts-Occurs,
  length-sort_texts,
}
pub use Bytes.Space.Visible.{IsVisible, trim_space-visible}
pub use Bytes.Case.Ascii.{IsAscii, equal_fold-to_lower, to_lower-nil}
pub use Decimal.RoundTrip.{set_string-decimal}
pub use Prim.Native.Nat.{ℕ, zero, suc, ◌+◌, ◌-◌, ◌*◌, ◌/◌, ◌%◌, ◌^◌, ◌≤◌, ◌<◌}
pub use Prim.Native.String.{String}
pub use mathlib.Core.Path.{◌≡◌, refl, sym, ap, ◌∙◌, subst}
pub use mathlib.Core.Logic.{◌≢◌, ◌↔◌, ◌⊎◌, inl, inr}
pub use mathlib.Core.Bool.{Bool, true, false, not, ◌&&◌, ◌||◌}
pub use mathlib.Core.Option.{Option, none, some}
pub use mathlib.Core.List.{List, [], ◌∷◌, ◌++◌, map}
pub use native.Mathlib.Omega.{arith}
unfoldable pub use native.Mathlib.Decide.{ℕ_discrete}
