-- ===== src/Base/Bytes/Case/Ascii.antt =====
-- Case mapping of ASCII texts.
use Prim.Native.Nat.{ℕ, ◌<◌}
use mathlib.Core.Path.{◌≡◌, refl, ◌∙◌, sym}
use mathlib.Core.Bool.{true}
use mathlib.Core.List.{[], ◌∷◌}
use native.Mathlib.Omega.{arith}
use canary.Base.Tests.{◌==◌, nat_eq}
use canary.Base.Lists.{All}
use canary.Base.Bytes.{Text, has_prefix, text_eq}
use canary.Base.Bytes.Case.{special, recase, to_lower, fold, equal_fold}

abbrev pub IsAscii : ℕ → Type 0
IsAscii c = c < 0x80

fold-to_lower : (s : Text) → All IsAscii s → fold s ≡ to_lower s
unfolding fold to_lower recase special has_prefix
fold-to_lower [] h = refl
fold-to_lower (c ∷ s) (a, h) = ground (arith, fold-to_lower s h)

same-eq : (s t : Text) → s ≡ t → (s == t) ≡ true
same-eq s t h = ground arith

-- Texts that agree in lower case agree under folding.
pub equal_fold-to_lower :
    (s t : Text) → All IsAscii s → All IsAscii t → to_lower s ≡ to_lower t → equal_fold s t ≡ true
unfolding equal_fold
equal_fold-to_lower s t a b h =
    same-eq (fold s) (fold t) (fold-to_lower s a ∙ h ∙ sym (fold-to_lower t b))

-- Only the empty text has an empty lower case.
pub to_lower-nil : (t : Text) → to_lower t ≡ [] → t ≡ []
unfolding to_lower recase
to_lower-nil [] h = refl
to_lower-nil (c ∷ s) h = ground arith
