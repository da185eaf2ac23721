-- ===== src/Base/Bytes/Case.antt =====
-- `strings.ToLower`, `strings.ToUpper` and `strings.EqualFold`. The program only compares their
-- results with ASCII text, so the mapping covers the ASCII letters and the non-ASCII runes that map
-- to one; every other byte is left as it is.
pub mod Ascii
use Prim.Native.Nat.{ℕ, zero, suc, ◌+◌, ◌-◌}
use mathlib.Core.Bool.{Bool, ◌&&◌}
use mathlib.Core.Option.{Option, none, some}
use mathlib.Core.List.{List, [], ◌∷◌}
use canary.Base.Tests.{leb, if◌then◌else◌, ◌==◌}
use canary.Base.Lists.{length}
use canary.Base.Bytes.{Text, has_prefix, text_eq}

-- The ASCII letter of the rune at the head, with the number of bytes that follow its first.
special : List (Text × ℕ) → Text → Option (ℕ × ℕ)
special [] s = none
special ((w, b) ∷ ws) s = if has_prefix w s then some (b, length w - 1) else special ws s

recase : List (Text × ℕ) → (ℕ → ℕ) → ℕ → Text → Text
recase ws f skip [] = []
recase ws f (suc skip) (c ∷ s) = recase ws f skip s
recase ws f zero (c ∷ s) = elim (special ws (c ∷ s)) [
  | none ↦ f c ∷ recase ws f 0 s
  | some (b, skip) ↦ b ∷ recase ws f skip s
]

lower_byte : ℕ → ℕ
lower_byte c = if leb b'A' c && leb c b'Z' then c + 32 else c

upper_byte : ℕ → ℕ
upper_byte c = if leb b'a' c && leb c b'z' then c - 32 else c

-- U+0130 and the Kelvin sign U+212A.
unfoldable pub to_lower : Text → Text
unfolding recase special has_prefix lower_byte
to_lower = recase ((0xC4 ∷ 0xB0 ∷ [], b'i') ∷ (0xE2 ∷ 0x84 ∷ 0xAA ∷ [], b'k') ∷ []) lower_byte 0

-- U+0131 and the long s U+017F.
unfoldable pub to_upper : Text → Text
unfolding recase special has_prefix upper_byte
to_upper = recase ((0xC4 ∷ 0xB1 ∷ [], b'I') ∷ (0xC5 ∷ 0xBF ∷ [], b'S') ∷ []) upper_byte 0

-- Simple folding: the Kelvin sign folds to k and the long s to s.
fold : Text → Text
unfolding recase special has_prefix lower_byte
fold = recase ((0xE2 ∷ 0x84 ∷ 0xAA ∷ [], b'k') ∷ (0xC5 ∷ 0xBF ∷ [], b's') ∷ []) lower_byte 0

unfoldable pub equal_fold : Text → Text → Bool
unfolding fold text_eq
equal_fold s t = fold s == fold t
