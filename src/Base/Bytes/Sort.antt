-- ===== src/Base/Bytes/Sort.antt =====
-- `sort.Strings`: the order of the bytes, and sorting by insertion. Equal texts are the same, so that
-- every sort has the same result.
pub mod Sorted
use Prim.Native.Nat.{ℕ}
use mathlib.Core.Bool.{Bool, true, false}
use mathlib.Core.List.{List, [], ◌∷◌}
use canary.Base.Tests.{ltb, if◌then◌else◌}
use canary.Base.Bytes.{Text}

-- `a <= b` on strings.
unfoldable pub text_leb : Text → Text → Bool
text_leb [] t = true
text_leb (a ∷ s) [] = false
text_leb (a ∷ s) (b ∷ t) = if ltb a b then true else if ltb b a then false else text_leb s t

unfoldable pub insert_text : Text → List Text → List Text
insert_text t [] = t ∷ []
insert_text t (u ∷ us) = if text_leb t u then t ∷ u ∷ us else u ∷ insert_text t us

unfoldable pub sort_texts : List Text → List Text
unfolding insert_text text_leb
sort_texts [] = []
sort_texts (t ∷ ts) = insert_text t (sort_texts ts)
