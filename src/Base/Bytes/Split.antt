-- ===== src/Base/Bytes/Split.antt =====
-- `strings.Split` at one byte, `strings.HasSuffix`, and `strings.ReplaceAll` of a text of two bytes by
-- one byte.
use Prim.Native.Nat.{ℕ}
use mathlib.Core.Path.{◌≡◌, refl}
use mathlib.Core.Bool.{Bool, true, false, ◌&&◌, ◌||◌}
use mathlib.Core.List.{List, [], ◌∷◌, ◌++◌}
use native.Mathlib.Omega.{arith}
use canary.Base.Tests.{◌==◌, nat_eq, if◌then◌else◌}
use canary.Base.Lists.{is_empty}
use canary.Base.Bytes.{Text, text_eq, has_prefix}

-- The first part goes on with the byte `c`.
abbrev onto : ℕ → List Text → List Text
onto c [] = (c ∷ []) ∷ []
onto c (part ∷ parts) = (c ∷ part) ∷ parts

unfoldable pub split : ℕ → Text → List Text
split sep [] = [] ∷ []
split sep (c ∷ s) = let parts = split sep s in if c == sep then [] ∷ parts else onto c parts

unfoldable pub has_suffix : Text → Text → Bool
has_suffix suffix [] = is_empty suffix
has_suffix suffix (c ∷ s) = (c ∷ s) == suffix || has_suffix suffix s

unfoldable pub replace_pair : ℕ → ℕ → ℕ → Text → Text
replace_pair a b c [] = []
replace_pair a b c (x ∷ []) = x ∷ []
replace_pair a b c (x ∷ y ∷ s) = elim (x == a && y == b) [
  | true ↦ c ∷ replace_pair a b c s
  | false ↦ x ∷ replace_pair a b c (y ∷ s)
]

-- A text with the suffix is something and the suffix.
pub has_suffix_sound :
    (suffix s : Text) → has_suffix suffix s ≡ true → (front : Text) × (s ≡ front ++ suffix)
unfolding has_suffix
has_suffix_sound [] [] h = ([], refl)
has_suffix_sound (c ∷ suffix) [] h = cc
has_suffix_sound suffix (c ∷ s) h = elim (text_eq.dec (c ∷ s) suffix) [
  | yes same ↦ ([], same)
  | no differ ↦ let (front, e) = has_suffix_sound suffix s (ground arith) in (c ∷ front, rw (← e))
]

pub has_suffix-append : (front suffix : Text) → has_suffix suffix (front ++ suffix) ≡ true
unfolding has_suffix
has_suffix-append [] [] = refl
has_suffix-append [] (c ∷ suffix) = ground arith
has_suffix-append (c ∷ front) suffix = ground (arith, has_suffix-append front suffix)

pub has_prefix_sound :
    (prefix s : Text) → has_prefix prefix s ≡ true → (rest : Text) × (s ≡ prefix ++ rest)
unfolding has_prefix
has_prefix_sound [] s h = (s, refl)
has_prefix_sound (p ∷ ps) [] h = cc
has_prefix_sound (p ∷ ps) (c ∷ s) h =
    let (rest, e) = has_prefix_sound ps s (ground arith) in (rest, ground arith)
