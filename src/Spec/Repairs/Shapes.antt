-- ===== src/Spec/Repairs/Shapes.antt =====
-- What the schema of `schemaForValue` (internal/canary/specsmith.go) tells of the value.
use canary.Base.{
  Bool, ℕ, zero, suc, ◌-◌, Text, text_eq, lit, take, sort_texts, ◌==◌, if◌then◌else◌, ◌≡◌, refl, ap,
  ◌∙◌, arith, true, false, not, some, List, [], ◌∷◌,
}
use canary.Json.{
  Json, null, bool, num, str, arr, obj, Items, nil, cons, Fields, end, field, get, get?, get_field,
  keys,
}
use canary.Spec.Repairs.{
  max_schema_array_items, max_schema_properties, typed, object_schema, array_schema, items_schema,
  contains_point, put_variant, variants_from, properties_of, schema_within, schema_for_value,
}

-- The same kinds of values at the same keys, and numbers that are both whole or both not.
mutual
  pub data SameShape : Json → Json → Type 0 where
    nulls : SameShape null null
    bools : (b c : Bool) → SameShape (bool b) (bool c)
    strings : (s t : Text) → SameShape (str s) (str t)
    numbers : {m n : Text} → contains_point m ≡ contains_point n → SameShape (num m) (num n)
    arrays : {items items' : Items} → SameItems items items' → SameShape (arr items) (arr items')
    objects : {fs gs : Fields} → SameFields fs gs → SameShape (obj fs) (obj gs)

  pub data SameItems : Items → Items → Type 0 where
    no_items : SameItems nil nil
    more_items :
        {v w : Json} {items items' : Items}
        → SameShape v w
        → SameItems items items'
        → SameItems (cons v items) (cons w items')

  pub data SameFields : Fields → Fields → Type 0 where
    no_fields : SameFields end end
    more_fields :
        {key : Text} {v w : Json} {fs gs : Fields}
        → SameShape v w
        → SameFields fs gs
        → SameFields (field key v fs) (field key w gs)

keys-SameFields : {fs gs : Fields} → SameFields fs gs → keys fs ≡ keys gs
unfolding keys
keys-SameFields no_fields = refl
keys-SameFields (more_fields {key} v s) = ap (λ ks. key ∷ ks) (keys-SameFields s)

get-field :
    (key k : Text) (v : Json) (fs : Fields)
    → get (some (field k v fs)) key ≡ (if key == k then v else get (some fs) key)
unfolding get get? get_field
get-field key k v fs = ground arith

if-SameShape :
    (b : Bool) {v w v' w' : Json}
    → SameShape v w
    → SameShape v' w'
    → SameShape (if b then v else v') (if b then w else w')
if-SameShape true s t = s
if-SameShape false s t = t

get-SameShape :
    {fs gs : Fields} (key : Text)
    → SameFields fs gs
    → SameShape (get (some fs) key) (get (some gs) key)
get-SameShape key no_fields = unfold get get? get_field in nulls
get-SameShape key (more_fields {key = k} {v} {w} {fs} {gs} s more) =
    rw (get-field key k v fs, get-field key k w gs)
      (if-SameShape (key == k) s (get-SameShape key more))

-- A function of the shape only.
module _ (f : Json → Json) (blind : (v w : Json) → SameShape v w → f v ≡ f w) where
  properties_of-SameFields :
      {fs gs : Fields} (ks : List Text)
      → SameFields fs gs
      → properties_of f fs ks ≡ properties_of f gs ks
  unfolding properties_of
  properties_of-SameFields [] s = refl
  properties_of-SameFields {fs} {gs} (key ∷ ks) s = ground (
    arith,
    properties_of-SameFields ks s,
    blind (get (some fs) key) (get (some gs) key) (get-SameShape key s),
  )

  variants_from-SameItems :
      (encode : Json → Text) (limit : ℕ) (variants : List (Text × Json)) (items items' : Items)
      → SameItems items items'
      → variants_from encode f limit items variants ≡ variants_from encode f limit items' variants
  unfolding variants_from
  variants_from-SameItems encode zero variants items items' s = refl
  variants_from-SameItems encode (suc limit) variants items items' no_items = refl
  variants_from-SameItems encode (suc limit) variants _ _
        (more_items {v} {w} {items} {items'} s more) =
      ap
        (λ schema. variants_from encode f limit items (put_variant (encode schema) schema variants))
        (blind v w s)
      ∙ variants_from-SameItems encode limit (put_variant (encode (f w)) (f w) variants) items
          items' more

pub schema_within-SameShape :
    (encode : Json → Text) (fuel : ℕ) (v w : Json)
    → SameShape v w
    → schema_within encode fuel v ≡ schema_within encode fuel w
unfolding schema_within
schema_within-SameShape encode zero v w s = refl
schema_within-SameShape encode (suc fuel) v w nulls = refl
schema_within-SameShape encode (suc fuel) v w (bools b c) = refl
schema_within-SameShape encode (suc fuel) v w (strings s t) = refl
schema_within-SameShape encode (suc fuel) v w (numbers e) =
    ap (λ b. if not b then typed (lit "integer") else typed (lit "number")) e
schema_within-SameShape encode (suc fuel) v w (arrays s) =
    ap (λ variants. array_schema (items_schema variants))
      (variants_from-SameItems (schema_within encode fuel) (schema_within-SameShape encode fuel)
        encode max_schema_array_items [] _ _ s)
schema_within-SameShape encode (suc fuel) v w (objects {fs} {gs} s) = rw (keys-SameFields s) (
    ap object_schema (
      properties_of-SameFields (schema_within encode fuel) (schema_within-SameShape encode fuel)
        (take max_schema_properties (sort_texts (keys gs))) s))

-- The schema of a value depends on its shape only: on the kinds of the values, the keys, and whether a
-- number is whole. No text, no number and no truth value of the body can be read off the schema.
pub schema_for_value-SameShape :
    (encode : Json → Text) (v w : Json) (depth : ℕ)
    → SameShape v w
    → schema_for_value encode v depth ≡ schema_for_value encode w depth
unfolding schema_for_value
schema_for_value-SameShape encode v w depth s = schema_within-SameShape encode (6 - depth) v w s
