-- ===== src/Spec/Repairs/Accepting.antt =====
-- The schema that `schemaForValue` (internal/canary/specsmith.go) infers, against the rules of JSON
-- Schema.
use canary.Base.{
  ℕ, zero, suc, ◌-◌, Text, text_eq, take, sort_texts, ◌≡◌, refl, sym, ap, ◌∙◌, subst, arith,
  Bool-cases, inl, inr, some, List, [], ◌∷◌, All, Occurs, first, later, sort_texts-Occurs,
  length-sort_texts, length-sort_texts,
}
use canary.Json.{Json, Items, nil, cons, Fields, end, field, keys}
use canary.Spec.Repairs.{
  empty, items_schema, contains_point, put_variant, variants_from, properties_of, schema_within,
  schema_for_value,
}
use canary.Spec.Repairs.Shapes.{SameShape, schema_within-SameShape}
use canary.Spec.Repairs.Plain.{
  anything, a_null, a_boolean, a_string, an_integer, a_number, an_object, an_array, no_fields,
  a_field, no_items, an_item, plain_null, plain_bool, plain_num, plain_str, plain_arr, plain_obj,
  plain_cons, plain_field, Accepts, EachField, EachItem, AllOfShape, IsUniform, IsShort, IsPlain,
  PlainItems, PlainFields,
}
use canary.Spec.Repairs.Properties.{take-all, get_field-properties_of, Given, Given-self}

module _ (encode : Json → Text) (f : Json → Json)
    (accept : (v : Json) → IsPlain v → Accepts (f v) v) where
  properties_of-EachField :
      (fs : Fields) (ks : List Text) (gs : Fields)
      → Given fs gs
      → All IsShort (keys gs)
      → ((key : Text) → Occurs key (keys gs) → Occurs key ks)
      → PlainFields gs
      → EachField (properties_of f fs ks) gs
  unfolding keys
  properties_of-EachField fs ks end g short sub p = no_fields (properties_of f fs ks)
  properties_of-EachField fs ks (field key v gs) (e, g) (here, short) sub (plain_field p ps) =
      a_field
        (get_field-properties_of f fs ks key here (sub key (first refl)) ∙ ap (λ w. some (f w)) e)
        (accept v p) (properties_of-EachField fs ks gs g short (λ j o. sub j (later o)) ps)

  put_variant_self :
      (key : Text) (schema : Json)
      → put_variant key schema ((key, schema) ∷ []) ≡ (key, schema) ∷ []
  unfolding put_variant
  put_variant_self key schema = ground arith

  module _ (blind : (v w : Json) → SameShape v w → f v ≡ f w) (v : Json) where
    abbrev single : List (Text × Json)
    single = (encode (f v), f v) ∷ []

    variants_from-single :
        (limit : ℕ) (items : Items)
        → AllOfShape v items
        → variants_from encode f limit items single ≡ single
    unfolding variants_from
    variants_from-single zero items s = refl
    variants_from-single (suc limit) nil s = refl
    variants_from-single (suc limit) (cons w items) (s, more) =
        ap
          (λ schema. variants_from encode f limit items (put_variant (encode schema) schema single))
          (sym (blind v w s))
        ∙ (ap (variants_from encode f limit items) (put_variant_self (encode (f v)) (f v))
            ∙ variants_from-single limit items more)

    AllOfShape-EachItem :
        (items : Items) → AllOfShape v items → PlainItems items → EachItem (f v) items
    AllOfShape-EachItem nil s p = no_items (f v)
    AllOfShape-EachItem (cons w items) (s, more) (plain_cons p ps) =
        an_item (subst (λ schema. Accepts schema w) (sym (blind v w s)) (accept w p))
          (AllOfShape-EachItem items more ps)

  items_schema-EachItem :
      ((v w : Json) → SameShape v w → f v ≡ f w)
      → (items : Items) → IsUniform items
      → PlainItems items
      → EachItem (items_schema (variants_from encode f 16 items [])) items
  unfolding items_schema variants_from put_variant
  items_schema-EachItem blind nil u p = no_items empty
  items_schema-EachItem blind (cons v items) u (plain_cons p ps) =
      subst (λ variants. EachItem (items_schema variants) (cons v items))
        (sym (variants_from-single blind v 15 items u))
        (an_item (accept v p) (AllOfShape-EachItem blind v items u ps))

schema_within-Accepts :
    (encode : Json → Text) (fuel : ℕ) (v : Json)
    → IsPlain v
    → Accepts (schema_within encode fuel v) v
unfolding schema_within
schema_within-Accepts encode zero v p = anything v
schema_within-Accepts encode (suc fuel) v plain_null = a_null
schema_within-Accepts encode (suc fuel) v (plain_bool b) = a_boolean b
schema_within-Accepts encode (suc fuel) v (plain_str s) = a_string s
schema_within-Accepts encode (suc fuel) v (plain_num n) = elim (Bool-cases (contains_point n)) [
  | inl point ↦ rw (point, schema_within) (a_number n)
  | inr whole ↦ rw (whole, schema_within) (an_integer n whole)
]
schema_within-Accepts encode (suc fuel) v (plain_arr {items} u ps) = an_array (
    items_schema-EachItem encode (schema_within encode fuel) (schema_within-Accepts encode fuel)
      (schema_within-SameShape encode fuel) items u ps)
schema_within-Accepts encode (suc fuel) v (plain_obj {fs} few short distinct ps) =
    let sorted = sort_texts (keys fs) in
    let whole : take 64 sorted ≡ sorted =
      take-all 64 sorted (omega (arith, length-sort_texts (keys fs))) in
    an_object (
      properties_of-EachField encode (schema_within encode fuel) (schema_within-Accepts encode fuel)
        fs (take 64 sorted) fs (Given-self fs distinct) short
        (λ key o. subst (λ ks. Occurs key ks) (sym whole) (sort_texts-Occurs key (keys fs) o)) ps)

-- A value is valid under the schema that is inferred from it, if its objects have at most 64 keys,
-- distinct and of at most 128 bytes, and the items of each array have one shape.
pub schema_for_value-Accepts :
    (encode : Json → Text) (v : Json) (depth : ℕ)
    → IsPlain v
    → Accepts (schema_for_value encode v depth) v
unfolding schema_for_value
schema_for_value-Accepts encode v depth p = schema_within-Accepts encode (6 - depth) v p
