-- ===== src/Base/Bytes.antt =====
-- Go strings and byte slices as lists of bytes. The functions of package strings that the program
-- calls are in the modules below.
pub mod Space
pub mod Case
pub mod Cut
pub mod Quote
pub mod Split
pub mod Sort
use Prim.Native.Nat.{ℕ, ◌+◌, ◌/◌, ◌%◌}
use Prim.Native.Char.{code}
use Prim.Native.String.{String}
use mathlib.Core.Path.{◌≡◌, refl, subst}
use mathlib.Core.Logic.{dite}
use mathlib.Core.Bool.{Bool, true, false, ◌&&◌, Bool-discrete}
use mathlib.Core.List.{List, [], ◌∷◌, ◌++◌}
use native.Mathlib.Omega.{arith}
use native.Mathlib.Decide.{ℕ_discrete}
use canary.Base.Tests.{ltb, if◌then◌else◌, Eq, ◌==◌, nat_eq}

abbrev pub Text : Type 0
Text = List ℕ

-- The UTF-8 bytes of a code point.
utf8 : ℕ → Text
utf8 c =
    if ltb c 0x80
    then c ∷ []
    else if ltb c 0x800
    then (0xC0 + c / 64) ∷ (0x80 + c % 64) ∷ []
    else if ltb c 0x10000
    then (0xE0 + c / 4096) ∷ (0x80 + c / 64 % 64) ∷ (0x80 + c % 64) ∷ []
    else (0xF0 + c / 262144) ∷ (0x80 + c / 4096 % 64) ∷ (0x80 + c / 64 % 64) ∷ (0x80 + c % 64) ∷ []

-- The bytes of a string literal.
unfoldable pub lit : String → Text
unfolding utf8
lit String.[] = []
lit (String.◌∷◌ c s) = utf8 (code c) ++ lit s

text_eq_bool : Text → Text → Bool
text_eq_bool [] [] = true
text_eq_bool (a ∷ s) (b ∷ t) = a == b && text_eq_bool s t
text_eq_bool _ _ = false

text_eq_bool_sound : (s t : Text) → text_eq_bool s t ≡ true → s ≡ t
unfolding text_eq_bool
text_eq_bool_sound [] [] h = refl
text_eq_bool_sound [] (b ∷ t) h = cc
text_eq_bool_sound (a ∷ s) [] h = cc
text_eq_bool_sound (a ∷ s) (b ∷ t) h = ground (arith, text_eq_bool_sound s t)

text_eq_bool_refl : (s : Text) → text_eq_bool s s ≡ true
unfolding text_eq_bool
text_eq_bool_refl [] = refl
text_eq_bool_refl (a ∷ s) = ground (arith, text_eq_bool_refl s)

text_eq_bool_complete : (s t : Text) → s ≡ t → text_eq_bool s t ≡ true
text_eq_bool_complete s t p = subst (λ u. text_eq_bool s u ≡ true) p (text_eq_bool_refl s)

-- Shut in proofs, where a split on `s == t` yields the equation or its negation.
instance unfoldable pub text_eq : Eq Text
unfolding text_eq_bool text_eq_bool_sound text_eq_bool_complete text_eq_bool_refl
text_eq = record {
  dec = λ s t.
      dite (Bool-discrete (text_eq_bool s t) true) (λ same. yes (text_eq_bool_sound s t same))
        (λ differ. no (λ p. differ (text_eq_bool_complete s t p)));
}

-- `strings.HasPrefix`, the prefix first.
unfoldable pub has_prefix : Text → Text → Bool
has_prefix [] s = true
has_prefix (p ∷ ps) [] = false
has_prefix (p ∷ ps) (c ∷ s) = p == c && has_prefix ps s
