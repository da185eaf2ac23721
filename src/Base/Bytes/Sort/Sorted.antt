-- ===== src/Base/Bytes/Sort/Sorted.antt =====
-- A sorted list is in order, and has the elements of the list.
use mathlib.Core.Path.{◌≡◌, refl, subst}
use mathlib.Core.Logic.{inl, inr}
use mathlib.Core.Bool.{true, false}
use mathlib.Core.List.{List, [], ◌∷◌}
use native.Mathlib.Omega.{arith}
use canary.Base.Tests.{Bool-cases}
use Prim.Native.Nat.{suc}
use canary.Base.Lists.{length, All, Any, first, later}
use canary.Base.Bytes.{Text}
use canary.Base.Bytes.Sort.{text_leb, insert_text, sort_texts}

abbrev pub AtMost : Text → Text → Type 0
AtMost t u = text_leb t u ≡ true

abbrev pub IsSorted : List Text → Type 0
IsSorted [] = Unit
IsSorted (t ∷ ts) = All (AtMost t) ts × IsSorted ts

abbrev pub Occurs : Text → List Text → Type 0
Occurs t ts = Any (λ u. u ≡ t) ts

pub AtMost-refl : (t : Text) → AtMost t t
unfolding text_leb
AtMost-refl [] = refl
AtMost-refl (a ∷ t) = ground (arith, AtMost-refl t)

AtMost-total : (t u : Text) → text_leb t u ≡ false → AtMost u t
unfolding text_leb
AtMost-total [] u h = cc
AtMost-total (a ∷ t) [] h = refl
AtMost-total (a ∷ t) (b ∷ u) h = ground (arith, AtMost-total t u)

AtMost-trans : (t u v : Text) → AtMost t u → AtMost u v → AtMost t v
unfolding text_leb
AtMost-trans [] u v h k = refl
AtMost-trans (a ∷ t) [] v h k = cc
AtMost-trans (a ∷ t) (b ∷ u) [] h k = cc
AtMost-trans (a ∷ t) (b ∷ u) (c ∷ v) h k = ground (arith, AtMost-trans t u v)

All-AtMost : (t u : Text) (vs : List Text) → AtMost t u → All (AtMost u) vs → All (AtMost t) vs
All-AtMost t u [] h a = tt
All-AtMost t u (v ∷ vs) h (b, a) = (AtMost-trans t u v h b, All-AtMost t u vs h a)

insert_text-All :
    (t v : Text) (us : List Text)
    → AtMost t v
    → All (AtMost t) us
    → All (AtMost t) (insert_text v us)
unfolding insert_text
insert_text-All t v [] h a = (h, tt)
insert_text-All t v (u ∷ us) h (b, a) = ground (arith, insert_text-All t v us h a)

insert_text-IsSorted : (t : Text) (us : List Text) → IsSorted us → IsSorted (insert_text t us)
unfolding insert_text
insert_text-IsSorted t [] s = (tt, tt)
insert_text-IsSorted t (u ∷ us) (a, s) = elim (Bool-cases (text_leb t u)) [
  | inl below ↦ rw (below, insert_text) ((below, All-AtMost t u us below a), (a, s))
  | inr above ↦
      rw (above, insert_text)
        (insert_text-All u t us (AtMost-total t u above) a, insert_text-IsSorted t us s)
]

pub sort_texts-IsSorted : (ts : List Text) → IsSorted (sort_texts ts)
unfolding sort_texts
sort_texts-IsSorted [] = tt
sort_texts-IsSorted (t ∷ ts) = insert_text-IsSorted t (sort_texts ts) (sort_texts-IsSorted ts)

insert_text-Occurs_new : (t : Text) (us : List Text) → Occurs t (insert_text t us)
unfolding insert_text
insert_text-Occurs_new t [] = first refl
insert_text-Occurs_new t (u ∷ us) = elim (Bool-cases (text_leb t u)) [
  | inl below ↦ rw (below, insert_text) (first refl)
  | inr above ↦ rw (above, insert_text) (later (insert_text-Occurs_new t us))
]

insert_text-Occurs : (t v : Text) (us : List Text) → Occurs t us → Occurs t (insert_text v us)
unfolding insert_text
insert_text-Occurs t v [] o = elim o [ ]
insert_text-Occurs t v (u ∷ us) o = elim (Bool-cases (text_leb v u)) [
  | inl below ↦ rw (below, insert_text) (later o)
  | inr above ↦
      rw (above, insert_text)
        (elim o [ first e ↦ first e | later o' ↦ later (insert_text-Occurs t v us o') ])
]

pub sort_texts-Occurs : (t : Text) (ts : List Text) → Occurs t ts → Occurs t (sort_texts ts)
unfolding sort_texts
sort_texts-Occurs t [] o = elim o [ ]
sort_texts-Occurs t (u ∷ ts) (first e) = rw e (insert_text-Occurs_new t (sort_texts ts))
sort_texts-Occurs t (u ∷ ts) (later o) = insert_text-Occurs t u _ (sort_texts-Occurs t ts o)

pub All-Occurs {ℓ} : (P : Text → Type ℓ) (t : Text) (ts : List Text) → All P ts → Occurs t ts → P t
All-Occurs P t [] a o = elim o [ ]
All-Occurs P t (u ∷ ts) (p, a) (first e) = subst P e p
All-Occurs P t (u ∷ ts) (p, a) (later o) = All-Occurs P t ts a o

length-insert_text : (t : Text) (us : List Text) → length (insert_text t us) ≡ suc (length us)
unfolding insert_text
length-insert_text t [] = refl
length-insert_text t (u ∷ us) = ground (arith, length-insert_text t us)

pub length-sort_texts : (ts : List Text) → length (sort_texts ts) ≡ length ts
unfolding sort_texts
length-sort_texts [] = refl
length-sort_texts (t ∷ ts) =
    omega (arith, length-insert_text t (sort_texts ts), length-sort_texts ts)
