-- ===== src/Spec/Schemas/Concrete.antt =====
-- Which schemas `isConcreteSchema` (internal/canary/specsmith.go) takes as concrete.
use canary.Base.{
  ℕ, zero, suc, ◌-◌, Text, lit, text_eq, contains, ◌≡◌, ◌↔◌, inl, inr, refl, ap, sym, subst, arith,
  Bool, Bool-cases, Option-cases, true, false, ◌||◌, none, some, List, [], ◌∷◌, Any, first, later,
}
use canary.Json.{Json, obj, Items, nil, cons, Fields, Object, get}
use canary.Spec.Refs.{resolve_within}
use canary.Spec.Refs.Chains.{resolve_within_sound, resolve_within_complete}
use canary.Spec.Schemas.{
  items_of, variant_keywords, simple_types, any_concrete, in_variants, by_type, concrete_within,
  is_concrete_schema,
}
use canary.Spec.Schemas.Levels.{
  AnyItem, LeadsTo, type_of, Says, Concrete, here, there, of_variant, of_properties, of_items,
  of_type, of_values, ==-true, ==-false, array-ne-object, simple-ne-object, simple-ne-array,
  then_true, or_right,
}

abbrev Holds : Fields → ℕ → Object → Type 0
Holds document levels none = ⊥
Holds document levels (some schema) = Concrete document levels schema

-- A judgement that decides a property of the objects of one level below.
record Judges (judge : Object → Bool) (P : Fields → Type 0) : Type 0 where
  missing : judge none ≡ false
  sound : (schema : Fields) → judge (some schema) ≡ true → P schema
  complete : (schema : Fields) → P schema → judge (some schema) ≡ true

module _ (document : Fields) (fuel : ℕ) (judge : Object → Bool) (P : Fields → Type 0)
    (judges : Judges judge P) where
  judge_sound :
      (raw : Json) → judge (resolve_within document fuel raw) ≡ true → LeadsTo document fuel P raw
  judge_sound raw h = elim (Option-cases (resolve_within document fuel raw)) [
    | inl e ↦ cc (judges.missing, ap judge e)
    | inr (object, e) ↦
        let (n, below, leads) = resolve_within_sound document fuel raw object e in
        (n, below, object, leads, judges.sound object (rw e at h))
  ]

  judge_complete :
      (raw : Json) → LeadsTo document fuel P raw → judge (resolve_within document fuel raw) ≡ true
  judge_complete raw (n, below, object, leads, p) =
      rw (resolve_within_complete document fuel leads below) (judges.complete object p)

  any_concrete_sound :
      (items : Items)
      → any_concrete document fuel judge items ≡ true
      → AnyItem (LeadsTo document fuel P) items
  unfolding any_concrete
  any_concrete_sound nil h = cc
  any_concrete_sound (cons item items) h =
      elim (Bool-cases (judge (resolve_within document fuel item))) [
        | inl now ↦ here (judge_sound item now)
        | inr not_now ↦ there (any_concrete_sound items (rw not_now at h))
      ]

  any_concrete_complete :
      {items : Items}
      → AnyItem (LeadsTo document fuel P) items
      → any_concrete document fuel judge items ≡ true
  unfolding any_concrete
  any_concrete_complete (here p) = rw (judge_complete _ p) refl
  any_concrete_complete (there p) = ground (arith, any_concrete_complete p)

  in_variants_sound :
      (schema : Fields) (keywords : List Text)
      → in_variants document fuel judge schema keywords ≡ true
      → Any
          (λ keyword. AnyItem (LeadsTo document fuel P) (items_of (get (some schema) keyword)))
          keywords
  unfolding in_variants
  in_variants_sound schema [] h = cc
  in_variants_sound schema (keyword ∷ keywords) h =
      let items = items_of (get (some schema) keyword) in
      elim (Bool-cases (any_concrete document fuel judge items)) [
        | inl now ↦ first (any_concrete_sound items now)
        | inr not_now ↦ later (in_variants_sound schema keywords (rw not_now at h))
      ]

  in_variants_complete :
      (schema : Fields) (keywords : List Text)
      → Any
          (λ keyword. AnyItem (LeadsTo document fuel P) (items_of (get (some schema) keyword)))
          keywords
      → in_variants document fuel judge schema keywords ≡ true
  unfolding in_variants
  in_variants_complete schema [] a = elim a [ ]
  in_variants_complete schema (keyword ∷ keywords) (first p) = rw (any_concrete_complete p) refl
  in_variants_complete schema (keyword ∷ keywords) (later p) =
      ground (arith, in_variants_complete schema keywords p)

  by_type_sound :
      (schema : Fields) → by_type document fuel judge schema ≡ true → Says document fuel P schema
  unfolding by_type
  by_type_sound schema h = elim (text_eq.dec (type_of schema) (lit "object")) [
    | yes is_object ↦ of_properties is_object (ground arith)
    | no no_object ↦ elim (text_eq.dec (type_of schema) (lit "array")) [
      | yes is_array ↦
          of_items is_array (judge_sound (get (some schema) (lit "items")) (ground arith))
      | no no_array ↦ elim (Bool-cases (contains simple_types (type_of schema))) [
        | inl simple ↦ of_type simple
        | inr other ↦ of_values no_object no_array (ground arith)
      ]
    ]
  ]

  judged_sound :
      (schema : Fields)
      → (in_variants document fuel judge schema variant_keywords
          || by_type document fuel judge schema)
        ≡ true
      → Says document fuel P schema
  judged_sound schema h =
      elim (Bool-cases (in_variants document fuel judge schema variant_keywords)) [
        | inl varied ↦ of_variant (in_variants_sound schema variant_keywords varied)
        | inr plain ↦ by_type_sound schema (rw plain at h)
      ]

  abbrev varied : Fields → Bool
  varied schema = in_variants document fuel judge schema variant_keywords

  judged_complete :
      {schema : Fields}
      → Says document fuel P schema
      → (in_variants document fuel judge schema variant_keywords
          || by_type document fuel judge schema)
        ≡ true
  unfolding by_type
  judged_complete {schema} (of_variant p) = rw (in_variants_complete schema variant_keywords p) refl
  judged_complete {schema} (of_properties is_object filled) =
      or_right (varied schema) (by_type document fuel judge schema)
        (rw (==-true _ _ is_object) filled)
  judged_complete {schema} (of_items is_array p) =
      or_right (varied schema) (by_type document fuel judge schema)
        (rw (==-false _ _ (array-ne-object _ is_array), ==-true _ _ is_array) (judge_complete _ p))
  judged_complete {schema} (of_type simple) =
      or_right (varied schema) (by_type document fuel judge schema) (
        rw
          (
            ==-false _ _ (simple-ne-object _ simple),
            ==-false _ _ (simple-ne-array _ simple),
            simple,
          )
          refl)
  judged_complete {schema} (of_values no_object no_array valued) =
      or_right (varied schema) (by_type document fuel judge schema) (
        rw (==-false _ _ no_object, ==-false _ _ no_array)
          (then_true (contains simple_types (type_of schema)) _ valued))

module _ (document : Fields) where
  concrete_within-Judges :
      (levels : ℕ) → Judges (concrete_within document levels) (Concrete document levels)
  unfolding concrete_within
  concrete_within-Judges zero = record {
    missing = refl;
    sound = λ schema h. cc;
    complete = λ schema c. absurd c;
  }
  concrete_within-Judges (suc levels) =
      let below = concrete_within-Judges levels in
      let judge = concrete_within document levels in
      record {
        missing = refl;
        sound = λ schema h.
            elim (Option-cases (resolve_within document (suc levels) (obj schema))) [
              | inl e ↦ cc (rw (e, concrete_within) at h)
              | inr (r, e) ↦
                  let (n, near, leads) =
                    resolve_within_sound document (suc levels) (obj schema) r e in
                  (
                    n,
                    near,
                    r,
                    leads,
                    judged_sound document levels judge (Concrete document levels) below r
                        (rw (e, concrete_within) at h),
                  )
            ];
        complete = λ schema c.
            let (n, near, r, leads, says) = c in
            rw (resolve_within_complete document (suc levels) leads near, concrete_within)
              (judged_complete document levels judge (Concrete document levels) below says);
      }

-- A schema is judged concrete at a depth of at most 8 exactly if there is one and it is concrete within
-- the levels that are left: it leads, over references, to an object that has a simple type, an object
-- type with properties, an array type with concrete items, a variant that is concrete, or a list of
-- values.
pub is_concrete_schema_iff :
    (document : Fields) (schema : Object) (depth : ℕ)
    → (is_concrete_schema document schema depth ≡ true)
      ↔ ((fs : Fields) × (schema ≡ some fs) × Concrete document (9 - depth) fs)
unfolding is_concrete_schema
is_concrete_schema_iff document none depth =
    (λ h. cc ((concrete_within-Judges document (9 - depth)).missing), λ (fs, e, c). cc)
is_concrete_schema_iff document (some fs) depth = (
  λ h. (fs, refl, (concrete_within-Judges document (9 - depth)).sound fs h),
  λ (fs', e, c).
      (concrete_within-Judges document (9 - depth)).complete fs
        (subst (λ (o : Object). Holds document (9 - depth) o) (sym e) c),
)
