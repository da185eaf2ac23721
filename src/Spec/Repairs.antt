-- ===== src/Spec/Repairs.antt =====
-- The repairs that a review proposes: `buildSpecRepairs`, `inferJSONSchema` and `schemaForValue`
-- (internal/canary/specsmith.go). A map that the code makes is a list of fields.
pub mod Shapes
pub mod Plain
pub mod Properties
pub mod Accepting
use canary.Base.{
  ℕ, zero, suc, ◌-◌, Text, lit, text_eq, nat_eq, length, take, is_empty, ltb, to_lower, sort_texts,
  lookup, ◌==◌, Result, ok, err, if◌then◌else◌, Bool, true, false, not, ◌&&◌, ◌||◌, Option, none,
  some, List, [], ◌∷◌, map,
}
use canary.Json.{
  Json, null, bool, num, str, arr, obj, Items, nil, cons, Fields, end, field, get, keys,
}
use canary.Report.{SpecRepairBundle, SpecRequestTemplate}
use canary.Effect.{Url}
use canary.Auditor.{Outside, redacted_url}
use canary.Spec.Documents.{SpecDecoders, value, at_end, malformed}

abbrev pub max_schema_depth : ℕ
max_schema_depth = 6

abbrev pub max_schema_properties : ℕ
max_schema_properties = 64

abbrev pub max_schema_array_items : ℕ
max_schema_array_items = 16

abbrev pub only : Text → Json → Json
only key v = obj (field key v end)

abbrev pub typed : Text → Json
typed type = only (lit "type") (str type)

abbrev pub empty : Json
empty = obj end

abbrev pub object_schema : Fields → Json
object_schema properties = obj (
    field (lit "type") (str (lit "object")) (
      field (lit "properties") (obj properties)
        (field (lit "additionalProperties") (bool false) end)))

abbrev pub array_schema : Json → Json
array_schema items = obj (field (lit "type") (str (lit "array")) (field (lit "items") items end))

-- `strings.ContainsAny(text, ".eE")`
unfoldable pub contains_point : Text → Bool
contains_point [] = false
contains_point (c ∷ s) = (c == b'.' || c == b'e' || c == b'E') || contains_point s

-- `variants[encoded] = schema`
put_variant : Text → Json → List (Text × Json) → List (Text × Json)
put_variant key schema [] = (key, schema) ∷ []
put_variant key schema ((k, v) ∷ rest) =
    if key == k then (key, schema) ∷ rest else (k, v) ∷ put_variant key schema rest

variant_key : Text × Json → Text
variant_key (key, schema) = key

variant_at : List (Text × Json) → Text → Json
variant_at variants key = elim (lookup key variants) [ none ↦ null | some schema ↦ schema ]

to_items : List Json → Items
to_items [] = nil
to_items (v ∷ vs) = cons v (to_items vs)

-- The only variant, or a choice of the variants in the order of their texts.
items_schema : List (Text × Json) → Json
items_schema [] = empty
items_schema ((key, schema) ∷ []) = schema
items_schema (a ∷ b ∷ variants) =
    let all = a ∷ b ∷ variants in
    only (lit "oneOf") (arr (to_items (map (variant_at all) (sort_texts (map variant_key all)))))

-- The schemas of the first items by their texts; a later schema replaces one of the same text.
unfoldable pub variants_from :
    (Json → Text) → (Json → Json) → ℕ → Items → List (Text × Json) → List (Text × Json)
unfolding put_variant
variants_from encode schema zero items variants = variants
variants_from encode schema (suc limit) nil variants = variants
variants_from encode schema (suc limit) (cons item items) variants =
    let s = schema item in
    variants_from encode schema limit items (put_variant (encode s) s variants)

-- The loop over the keys.
unfoldable pub properties_of : (Json → Json) → Fields → List Text → Fields
properties_of schema fs [] = end
properties_of schema fs (key ∷ more) =
    let rest = properties_of schema fs more in
    if ltb 128 (length key) then rest else field key (schema (get (some fs) key)) rest

-- With the levels that are left, and `json.Marshal` of a schema.
unfoldable pub schema_within : (Json → Text) → ℕ → Json → Json
unfolding properties_of variants_from items_schema variant_key variant_at to_items contains_point
schema_within encode zero v = empty
schema_within encode (suc fuel) (obj fs) = object_schema (
    properties_of (schema_within encode fuel) fs
      (take max_schema_properties (sort_texts (keys fs))))
schema_within encode (suc fuel) (arr items) = array_schema (
    items_schema (variants_from encode (schema_within encode fuel) max_schema_array_items items []))
schema_within encode (suc fuel) (num n) =
    if not (contains_point n) then typed (lit "integer") else typed (lit "number")
schema_within encode (suc fuel) (str s) = typed (lit "string")
schema_within encode (suc fuel) (bool b) = typed (lit "boolean")
schema_within encode (suc fuel) null = typed (lit "null")

unfoldable pub schema_for_value : (Json → Text) → Json → ℕ → Json
unfolding schema_within
schema_for_value encode v depth = schema_within encode (max_schema_depth - depth) v

-- `none` where the body is no JSON.
unfoldable pub infer_json_schema : (Json → Text) → SpecDecoders → Text → Option Json
infer_json_schema encode d raw = elim (d.decode raw) [
  | value v rest ↦ some (schema_for_value encode v 0)
  | at_end ↦ none
  | malformed ↦ none
]

-- `object[key] = value`
unfoldable pub set_field : Text → Json → Fields → Fields
set_field key v end = field key v end
set_field key v (field k w fs) = if key == k then field key v fs else field k w (set_field key v fs)

abbrev described : Json → Text → Json
described (obj fs) text = obj (set_field (lit "description") (str text) fs)
described v text = v

abbrev generic_schema : Text → Json
generic_schema text = obj (
    field (lit "type") (str (lit "object"))
      (field (lit "additionalProperties") (bool true) (field (lit "description") (str text) end)))

-- `json.Marshal` with its error ignored.
abbrev pub encode_with : (Json → Result Text) → Json → Text
encode_with marshal v = elim (marshal v) [ err _ ↦ [] | ok text ↦ text ]

abbrev json_content : Json → Json
json_content schema = only (lit "application/json") (only (lit "schema") schema)

module _ (out : Outside) (d : SpecDecoders) (target : Url) (method : Text)
    (request_body : Text) where
  is_post : Bool
  is_post = method == lit "POST"

  input_schema : Json
  input_schema =
      let generic = generic_schema (lit "Replace with the reviewed request schema.") in
      if is_post && not (is_empty request_body)
      then elim (infer_json_schema (encode_with out.platform.marshal) d request_body) [
        | none ↦ generic
        | some inferred ↦ described inferred (
            lit
              "Shape inferred from the caller-supplied audit request; review required fields and semantics before publishing.")
      ]
      else generic

  output_schema : Json
  output_schema =
      generic_schema
        (lit "Replace with a schema derived from a reviewed, non-confidential successful response.")

  operation : Json
  operation =
      let responses = only (lit "200") (
        obj (
          field (lit "description") (str (lit "Successful paid response"))
            (field (lit "content") (json_content output_schema) end))) in
      let body = obj (
        field (lit "required") (bool true)
          (field (lit "content") (json_content input_schema) end)) in
      obj (
        field (lit "summary") (str (lit "TODO: describe what the paid operation returns")) (
          field (lit "responses") responses
            (if is_post then field (lit "requestBody") body end else end)))

  bazaar : Json
  bazaar = obj (
      field (lit "inputSchema") input_schema (
        field (lit "output") (only (lit "schema") output_schema)
          (if is_post then field (lit "bodyType") (str (lit "json")) end else end)))

  template : SpecRequestTemplate
  template = record {
    url = redacted_url out target;
    method = method;
    content_type = if is_post then lit "application/json" else [];
    body_file = if is_post then lit "request.json" else [];
  }

  unfoldable pub build_spec_repairs : SpecRepairBundle
  unfolding is_post input_schema output_schema operation bazaar template
  build_spec_repairs =
      let path = if is_empty target.escaped_path then lit "/" else target.escaped_path in
      record {
        open_api_patch = only (lit "paths") (only path (only (to_lower method) operation));
        bazaar_declaration = bazaar;
        request_template = template;
        review_required =
            lit "Replace every TODO and generic output schema with reviewed service semantics."
            ∷ lit
                "Decide which inferred input properties are required; Canary402 does not infer requiredness."
            ∷ lit "Add non-sensitive examples that validate against the final schemas."
            ∷ lit
                "Validate and merge these proposed fragments into the seller's source specification."
            ∷ [];
      }
