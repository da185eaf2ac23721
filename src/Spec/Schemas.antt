-- ===== src/Spec/Schemas.antt =====
-- The schemas and examples of an operation: `requestBodySchema`, `successfulResponseSchema`,
-- `jsonMedia`, `isConcreteSchema`, `queryParameterContract` and `hasExample`
-- (internal/canary/specsmith.go).
pub mod Levels
pub mod Concrete
pub mod Queries
use canary.Base.{
  ℕ, zero, suc, ◌-◌, ◌+◌, Text, lit, text_eq, has_prefix, has_suffix, is_empty, sort_texts,
  contains, to_lower, ◌==◌, if◌then◌else◌, Bool, true, false, not, ◌||◌, Option, none, some, List,
  [], ◌∷◌,
}
use canary.Json.{
  Json, obj, arr, Items, nil, cons, Fields, Object, get, get?, keys, as_object, string_value,
  has_fields,
}
use canary.Spec.Refs.{resolve_object, resolve_within}

abbrev is_present : Option Json → Bool
is_present none = false
is_present (some v) = true

unfoldable pub has_example : Object → Bool
has_example none = false
has_example (some fs) =
    is_present (get? (some fs) (lit "example"))
    || has_fields (as_object (get (some fs) (lit "examples")))

-- The keys that pass a test.
unfoldable pub keys_where : (Text → Bool) → List Text → List Text
keys_where test [] = []
keys_where test (key ∷ more) =
    let rest = keys_where test more in if test key then key ∷ rest else rest

is_json_key : Text → Bool
is_json_key key = has_suffix (lit "+json") (to_lower key)

-- The media of the first key, if there is one.
media_of_first : Fields → List Text → Object
media_of_first content [] = none
media_of_first content (key ∷ more) = as_object (get (some content) key)

unfoldable pub json_media : Object → Object
unfolding keys_where is_json_key media_of_first
json_media none = none
json_media (some content) = elim (as_object (get (some content) (lit "application/json"))) [
  | some media ↦ some media
  | none ↦ media_of_first content (sort_texts (keys_where is_json_key (keys content)))
]

-- A schema with the news whether there is an example.
abbrev pub SchemaExample : Type 0
SchemaExample = Object × Bool

-- `value.([]any)`, with no items where the value is no array.
unfoldable pub items_of : Json → Items
items_of (arr items) = items
items_of _ = nil

abbrev pub variant_keywords : List Text
variant_keywords = lit "oneOf" ∷ lit "anyOf" ∷ lit "allOf" ∷ []

abbrev pub simple_types : List Text
simple_types = lit "string" ∷ lit "number" ∷ lit "integer" ∷ lit "boolean" ∷ lit "null" ∷ []

module _ (document : Fields) where
  schema_of_media : Fields → SchemaExample
  schema_of_media media =
      let schema = resolve_object document (get (some media) (lit "schema")) 0 in
      (schema, has_example (some media) || has_example schema)

  media_in : Json → Object
  media_in raw = json_media (as_object (get (resolve_object document raw 0) (lit "content")))

  unfoldable pub request_body_schema : Fields → SchemaExample
  unfolding media_in schema_of_media
  request_body_schema operation = elim (media_in (get (some operation) (lit "requestBody"))) [
    | none ↦ (none, false)
    | some media ↦ schema_of_media media
  ]

  is_success_key : Text → Bool
  is_success_key key = has_prefix (lit "2") key || key == lit "default"

  -- The first response with JSON media.
  first_response : Fields → List Text → SchemaExample
  first_response responses [] = (none, false)
  first_response responses (key ∷ more) =
      let rest = first_response responses more in
      elim (media_in (get (some responses) key)) [
        | none ↦ rest
        | some media ↦ schema_of_media media
      ]

  unfoldable pub successful_response_schema : Fields → SchemaExample
  unfolding media_in schema_of_media first_response is_success_key keys_where
  successful_response_schema operation = elim (as_object (get (some operation) (lit "responses"))) [
    | none ↦ (none, false)
    | some responses ↦
        first_response responses (sort_texts (keys_where is_success_key (keys responses)))
  ]

  -- The loop over the variants, with the judgement of one level below.
  any_concrete : ℕ → (Object → Bool) → Items → Bool
  any_concrete fuel judge nil = false
  any_concrete fuel judge (cons variant variants) =
      judge (resolve_within document fuel variant) || any_concrete fuel judge variants

  -- The loop over the keywords.
  in_variants : ℕ → (Object → Bool) → Fields → List Text → Bool
  in_variants fuel judge resolved [] = false
  in_variants fuel judge resolved (keyword ∷ keywords) =
      any_concrete fuel judge (items_of (get (some resolved) keyword))
      || in_variants fuel judge resolved keywords

  -- The switch on the type.
  by_type : ℕ → (Object → Bool) → Fields → Bool
  by_type fuel judge resolved =
      let type = string_value (get (some resolved) (lit "type")) in
      if type == lit "object"
      then has_fields (as_object (get (some resolved) (lit "properties")))
      else if type == lit "array"
      then judge (resolve_within document fuel (get (some resolved) (lit "items")))
      else if contains simple_types type
      then true
      else is_present (get? (some resolved) (lit "enum"))
        || is_present (get? (some resolved) (lit "const"))

  -- With the number of levels that may still be looked at.
  unfoldable pub concrete_within : ℕ → Object → Bool
  unfolding in_variants any_concrete by_type
  concrete_within zero schema = false
  concrete_within (suc fuel) none = false
  concrete_within (suc fuel) (some fs) = elim (resolve_within document (suc fuel) (obj fs)) [
    | none ↦ false
    | some resolved ↦
        in_variants fuel (concrete_within fuel) resolved variant_keywords
        || by_type fuel (concrete_within fuel) resolved
  ]

  -- From a depth of 9 on, no schema is concrete.
  unfoldable pub is_concrete_schema : Object → ℕ → Bool
  unfolding concrete_within items_of
  is_concrete_schema schema depth = concrete_within (9 - depth) schema

-- The loop over the parameters, and whether one for the query was found before.
query_contract : Bool → Items → Bool × Bool
query_contract found nil = (found, found)
query_contract found (cons raw parameters) =
    let parameter = as_object raw in
    let query = string_value (get parameter (lit "in")) == lit "query" in
    let rest = query_contract (found || query) parameters in
    if not query
    then rest
    else if is_empty (string_value (get parameter (lit "name")))
    then (true, false)
    else elim (as_object (get parameter (lit "schema"))) [
      | none ↦ (true, false)
      | some schema ↦ rest
    ]

unfoldable pub query_parameter_contract : Fields → Bool × Bool
unfolding query_contract items_of
query_parameter_contract operation =
    query_contract false (items_of (get (some operation) (lit "parameters")))
