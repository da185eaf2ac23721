-- ===== src/Base/Bytes/Space/Visible.antt =====
-- `strings.TrimSpace` of a text without white space.
use Prim.Native.Nat.{ℕ, ◌<◌}
use mathlib.Core.Path.{◌≡◌, refl}
use mathlib.Core.List.{[], ◌∷◌, map, reverse, reverse_aux, reverse-reverse}
use native.Mathlib.Omega.{arith}
use canary.Base.Tests.{nat_eq}
use canary.Base.Lists.{All}
use canary.Base.Bytes.{Text, has_prefix}
use canary.Base.Bytes.Space.{white_space, leading, drop_leading, trim_space}

-- A visible ASCII character.
abbrev pub IsVisible : ℕ → Type 0
IsVisible c = (0x20 < c) × (c < 0x80)

leading-visible : (c : ℕ) (s : Text) → IsVisible c → leading white_space (c ∷ s) ≡ 0
unfolding leading has_prefix
leading-visible c s v = ground arith

leading-visible_back :
    (c : ℕ) (s : Text) → IsVisible c → leading (map reverse white_space) (c ∷ s) ≡ 0
unfolding leading has_prefix
leading-visible_back c s v = ground arith

drop_leading-visible : (s : Text) → All IsVisible s → drop_leading white_space 0 s ≡ s
unfolding drop_leading
drop_leading-visible [] v = refl
drop_leading-visible (c ∷ s) (v, vs) = rw (leading-visible c s v, drop_leading) refl

drop_leading-visible_back :
    (s : Text) → All IsVisible s → drop_leading (map reverse white_space) 0 s ≡ s
unfolding drop_leading
drop_leading-visible_back [] v = refl
drop_leading-visible_back (c ∷ s) (v, vs) = rw (leading-visible_back c s v, drop_leading) refl

All-reverse_aux : (s t : Text) → All IsVisible s → All IsVisible t → All IsVisible (reverse_aux s t)
All-reverse_aux [] t vs vt = vt
All-reverse_aux (c ∷ s) t (v, vs) vt = All-reverse_aux s (c ∷ t) vs (v, vt)

-- A text of visible ASCII characters has nothing to trim.
pub trim_space-visible : (s : Text) → All IsVisible s → trim_space s ≡ s
unfolding trim_space
trim_space-visible s v =
    rw (drop_leading-visible s v)
      (rw (drop_leading-visible_back (reverse s) (All-reverse_aux s [] v tt)) (reverse-reverse s))
