-- ===== src/Base/Bytes/Cut.antt =====
-- `strings.Trim` and `strings.TrimRight` with an ASCII cutset, `strings.Join`, and ASCII texts.
use Prim.Native.Nat.{ℕ}
use mathlib.Core.Bool.{Bool, true, ◌&&◌}
use mathlib.Core.List.{List, [], ◌∷◌, ◌++◌, reverse}
use canary.Base.Tests.{ltb}
use canary.Base.Bytes.{Text}

unfoldable pub drop_while : (ℕ → Bool) → Text → Text
drop_while p [] = []
drop_while p (c ∷ s) = elim (p c) [ true ↦ drop_while p s | _ ↦ c ∷ s ]

unfoldable pub trim_right_set : (ℕ → Bool) → Text → Text
unfolding drop_while
trim_right_set p s = reverse (drop_while p (reverse s))

unfoldable pub trim_set : (ℕ → Bool) → Text → Text
unfolding trim_right_set
trim_set p s = trim_right_set p (drop_while p s)

-- `strings.Join`
unfoldable pub join : Text → List Text → Text
join sep [] = []
join sep (part ∷ []) = part
join sep (part ∷ more ∷ parts) = part ++ (sep ++ join sep (more ∷ parts))

-- `isASCII`: a byte of 0x80 and above begins or breaks a rune above 127.
unfoldable pub is_ascii : Text → Bool
is_ascii [] = true
is_ascii (c ∷ s) = ltb c 0x80 && is_ascii s
