-- ===== src/Spec/Repairs/Properties.antt =====
-- The properties of an inferred object schema (`schemaForValue` of internal/canary/specsmith.go).
use canary.Base.{
  ℕ, zero, suc, ◌≤◌, Text, text_eq, length, take, ltb, ◌==◌, if◌then◌else◌, ◌≡◌, ◌≢◌, refl, sym, ap,
  ◌∙◌, subst, arith, Bool-cases, inl, inr, true, some, List, [], ◌∷◌, Occurs, first, later,
}
use canary.Json.{Json, Fields, end, field, get, get?, get_field, keys}
use canary.Spec.Repairs.{properties_of}
use canary.Spec.Repairs.Plain.{HasDistinctKeys, IsShort}

pub take-all : (n : ℕ) (ts : List Text) → length ts ≤ n → take n ts ≡ ts
take-all zero [] h = refl
take-all zero (t ∷ ts) h = absurd (omega arith)
take-all (suc n) [] h = refl
take-all (suc n) (t ∷ ts) h = ap (λ us. t ∷ us) (take-all n ts (omega arith))

get_field-cons :
    (key k : Text) (v : Json) (fs : Fields)
    → get_field key (field k v fs) ≡ (if key == k then some v else get_field key fs)
unfolding get_field
get_field-cons key k v fs = ground arith

module _ (f : Json → Json) (fs : Fields) where
  properties_of-short :
      (key : Text) (ks : List Text)
      → IsShort key
      → properties_of f fs (key ∷ ks) ≡ field key (f (get (some fs) key)) (properties_of f fs ks)
  unfolding properties_of
  properties_of-short key ks short = ground arith

  properties_of-long :
      (key : Text) (ks : List Text)
      → ltb 128 (length key) ≡ true
      → properties_of f fs (key ∷ ks) ≡ properties_of f fs ks
  unfolding properties_of
  properties_of-long key ks long = ground arith

  -- A property whose key is not too long is there with the schema of its value.
  pub get_field-properties_of :
      (ks : List Text) (key : Text)
      → IsShort key
      → Occurs key ks
      → get_field key (properties_of f fs ks) ≡ some (f (get (some fs) key))
  get_field-properties_of [] key short o = elim o [ ]
  get_field-properties_of (k ∷ ks) key short o = elim (Bool-cases (ltb 128 (length k))) [
    | inl long ↦
        ap (get_field key) (properties_of-long k ks long)
        ∙ get_field-properties_of ks key short (elim o [
          | first e ↦ let same : length k ≡ length key = ap length e in absurd (ground arith)
          | later o' ↦ o'
        ])
    | inr fits ↦
        ap (get_field key) (properties_of-short k ks (ground arith))
        ∙ (get_field-cons key k (f (get (some fs) k)) (properties_of f fs ks)
            ∙ elim (text_eq.dec key k) [
              | yes same ↦ ground arith
              | no differ ↦
                  let rest =
                    get_field-properties_of ks key short
                      (elim o [ first e ↦ absurd (differ (sym e)) | later o' ↦ o' ]) in
                  ground arith
            ])
  ]

-- A field of an object with distinct keys is what its key leads to.
get-HasDistinctKeys :
    (key k : Text) (v : Json) (fs : Fields)
    → ¬ Occurs k (keys fs)
    → Occurs key (keys fs)
    → get (some (field k v fs)) key ≡ get (some fs) key
unfolding get get?
get-HasDistinctKeys key k v fs fresh o =
    let differ : key ≢ k = λ e. fresh (subst (λ j. Occurs j (keys fs)) e o) in
    ground (arith, get_field-cons key k v fs)

get-field_self : (key : Text) (v : Json) (fs : Fields) → get (some (field key v fs)) key ≡ v
unfolding get get?
get-field_self key v fs = ground (arith, get_field-cons key key v fs)

-- Each field of the second list is what its key leads to in the first.
abbrev pub Given : Fields → Fields → Type 0
Given fs end = Unit
Given fs (field key v gs) = (get (some fs) key ≡ v) × Given fs gs

Given-field :
    (k : Text) (w : Json) (fs gs : Fields)
    → ¬ Occurs k (keys fs)
    → ((key : Text) → Occurs key (keys gs) → Occurs key (keys fs))
    → Given fs gs
    → Given (field k w fs) gs
unfolding keys
Given-field k w fs end fresh sub g = tt
Given-field k w fs (field key v gs) fresh sub (e, g) = (
  get-HasDistinctKeys key k w fs fresh (sub key (first refl)) ∙ e,
  Given-field k w fs gs fresh (λ j o. sub j (later o)) g,
)

pub Given-self : (fs : Fields) → HasDistinctKeys fs → Given fs fs
Given-self end d = tt
Given-self (field key v fs) (fresh, d) =
    (get-field_self key v fs, Given-field key v fs fs fresh (λ j o. o) (Given-self fs d))
