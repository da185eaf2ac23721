-- ===== src/Spec/Repairs/Plain.antt =====
-- The values whose inferred schema (`schemaForValue` of internal/canary/specsmith.go) accepts them, and
-- what it is to be accepted.
use canary.Base.{◌≤◌, Text, text_eq, lit, length, ◌≡◌, Bool, false, some, All, Occurs}
use canary.Json.{
  Json, null, bool, num, str, arr, obj, Items, nil, cons, Fields, end, field, get_field, keys,
}
use canary.Spec.Repairs.{typed, empty, object_schema, array_schema, contains_point}
use canary.Spec.Repairs.Shapes.{SameShape}

-- When a value is valid under a schema of the forms that are inferred, but for the choice between several:
-- an empty schema, a type, an object type with properties and no others, an array type with items.
mutual
  pub data Accepts : Json → Json → Type 0 where
    anything : (v : Json) → Accepts empty v
    a_null : Accepts (typed (lit "null")) null
    a_boolean : (b : Bool) → Accepts (typed (lit "boolean")) (bool b)
    a_string : (s : Text) → Accepts (typed (lit "string")) (str s)
    an_integer : (n : Text) → contains_point n ≡ false → Accepts (typed (lit "integer")) (num n)
    a_number : (n : Text) → Accepts (typed (lit "number")) (num n)
    an_object :
        {properties fs : Fields}
        → EachField properties fs
        → Accepts (object_schema properties) (obj fs)
    an_array :
        {schema : Json} {items : Items}
        → EachItem schema items
        → Accepts (array_schema schema) (arr items)

  pub data EachField : Fields → Fields → Type 0 where
    no_fields : (properties : Fields) → EachField properties end
    a_field :
        {properties fs : Fields} {key : Text} {schema v : Json}
        → get_field key properties ≡ some schema
        → Accepts schema v
        → EachField properties fs
        → EachField properties (field key v fs)

  pub data EachItem : Json → Items → Type 0 where
    no_items : (schema : Json) → EachItem schema nil
    an_item :
        {schema v : Json} {items : Items}
        → Accepts schema v
        → EachItem schema items
        → EachItem schema (cons v items)

abbrev pub AllOfShape : Json → Items → Type 0
AllOfShape v nil = Unit
AllOfShape v (cons w items) = SameShape v w × AllOfShape v items

-- The items have one shape.
abbrev pub IsUniform : Items → Type 0
IsUniform nil = Unit
IsUniform (cons v items) = AllOfShape v items

abbrev pub HasDistinctKeys : Fields → Type 0
HasDistinctKeys end = Unit
HasDistinctKeys (field key v fs) = (¬ Occurs key (keys fs)) × HasDistinctKeys fs

abbrev pub IsShort : Text → Type 0
IsShort key = length key ≤ 128

-- A value whose objects have at most 64 keys, distinct and of at most 128 bytes, and whose arrays hold
-- items of one shape.
mutual
  pub data IsPlain : Json → Type 0 where
    plain_null : IsPlain null
    plain_bool : (b : Bool) → IsPlain (bool b)
    plain_num : (n : Text) → IsPlain (num n)
    plain_str : (s : Text) → IsPlain (str s)
    plain_arr : {items : Items} → IsUniform items → PlainItems items → IsPlain (arr items)
    plain_obj :
        {fs : Fields}
        → length (keys fs) ≤ 64
        → All IsShort (keys fs)
        → HasDistinctKeys fs
        → PlainFields fs
        → IsPlain (obj fs)

  pub data PlainItems : Items → Type 0 where
    plain_nil : PlainItems nil
    plain_cons :
        {v : Json} {items : Items} → IsPlain v → PlainItems items → PlainItems (cons v items)

  pub data PlainFields : Fields → Type 0 where
    plain_end : PlainFields end
    plain_field :
        {key : Text} {v : Json} {fs : Fields}
        → IsPlain v
        → PlainFields fs
        → PlainFields (field key v fs)
