-- ===== src/Examples/Reviews.antt =====
-- Runs of the specification review, and the theorems at their data.
use canary.Base.{
  ℕ, ℕ_discrete, lit, text_eq, nat_eq, trim_set, ◌-◌, split, has_prefix, has_suffix, replace_pair,
  sort_texts, ◌+◌, ◌≤◌, ◌≡◌, ◌↔◌, refl, arith, true, false, Option, none, some, [], first, later,
}
use canary.Json.{Json, bool, num, str, arr, obj, nil, cons, Fields, end, field, get, get?, keys}
use canary.Spec.Paths.{is_parameter, segments, path_of, path_template_matches, find_open_api_path}
use canary.Spec.Paths.Templates.{Fits, path_template_matches_iff}
use canary.Spec.Paths.Best.{FindsBest, find_open_api_path-FindsBest}
use canary.Spec.Refs.{local_target, resolve_object}
use canary.Spec.Refs.Chains.{Leads, resolve_object-some_iff}
use canary.Spec.Schemas.{is_concrete_schema, query_parameter_contract}
use canary.Spec.Schemas.Levels.{Concrete, AnyItem}
use canary.Spec.Schemas.Concrete.{is_concrete_schema_iff}
use canary.Spec.Schemas.Queries.{
  IsQuery, IsDeclared, AllItems, parameters_of, query_parameter_contract_iff,
}
use canary.Spec.Documents.{document_url, fetch_spec_document}
use canary.Spec.Documents.Fetching.{Discovers}
use canary.Spec.Repairs.{schema_for_value, contains_point}
use canary.Spec.Repairs.Plain.{Accepts, IsPlain}
use canary.Spec.Repairs.Plain.{
  plain_obj, plain_arr, plain_num, plain_str, plain_field, plain_end, plain_cons, plain_nil,
}
use canary.Spec.Repairs.Accepting.{schema_for_value-Accepts}
use canary.Spec.Repairs.Shapes.{
  numbers, objects, no_fields, more_fields, strings, schema_for_value-SameShape,
}
use canary.Spec.Inspection.{tools_of, inspect_specifications}
use canary.Spec.Inspection.Discovery.{inspect_specifications-Discovers}
use canary.Spec.Inspection.Tidy.{final, review-IsTidy}
use canary.Spec.Inspection.Usable.{IsUsable, FirstPasses, review-FirstPasses_iff}
use canary.Spec.Finalize.{finalize}
use canary.Spec.Findings.{IsTidy}
use canary.Examples.Inspectors.{spec, operation}
use canary.Examples.{challenge, url, out, auditor}

abbrev paths : Fields
paths =
    field (lit "/v1/{id}") (obj (field (lit "get") (obj operation) end))
      (field (lit "/{a}/{b}") (obj end) (field (lit "/{}") (obj end) end))

-- A schema that refers to another, which has a text with a name.
abbrev document : Fields
document =
    field (lit "schemas")
      (obj (
        field (lit "a/b")
          (obj (
            field (lit "type") (str (lit "object"))
              (field (lit "properties") (obj (field (lit "n") (obj end) end)) end)))
          end))
      end

abbrev referring : Fields
referring = field (lit "$ref") (str (lit "#/schemas/a~1b")) end

-- A schema that refers to itself.
abbrev circular : Fields
circular = field (lit "$ref") (str (lit "#/loop")) end

template_runs :
    (path_template_matches (lit "/v1/{id}") (lit "v1/7/") ≡ true)
    × (path_template_matches (lit "/v1/{id}") (lit "/v1") ≡ false)
    × (path_template_matches (lit "/{}") (lit "/v1") ≡ false)
unfolding path_template_matches is_parameter segments split trim_set has_prefix has_suffix lit
    text_eq ℕ_discrete
template_runs = (refl, refl, refl)

find_runs :
    find_open_api_path paths (lit "/v1/7")
    ≡ some (lit "/v1/{id}", field (lit "get") (obj operation) end)
unfolding find_open_api_path path_template_matches is_parameter segments split trim_set has_prefix
    has_suffix lit text_eq ℕ_discrete get get? keys sort_texts
find_runs = refl

resolve_runs :
    (is_concrete_schema document (some referring) 0 ≡ true)
    × (resolve_object (field (lit "loop") (obj circular) end) (obj circular) 0 ≡ none)
unfolding is_concrete_schema resolve_object local_target lit text_eq ℕ_discrete get get? split
    replace_pair has_prefix
resolve_runs = (refl, refl)

schema_runs :
    schema_for_value (λ schema. []) (obj (field (lit "n") (num (lit "1")) end)) 0
    ≡ obj (
        field (lit "type") (str (lit "object")) (
          field
            (lit "properties")
            (obj (field (lit "n") (obj (field (lit "type") (str (lit "integer")) end)) end))
            (field (lit "additionalProperties") (bool false) end)))
unfolding schema_for_value lit text_eq ℕ_discrete get get? keys sort_texts
schema_runs = refl

path_template_matches_iff_example :
    (path_template_matches (lit "/v1/{id}") (lit "/v1/7") ≡ true)
    ↔ Fits (lit "/v1/{id}") (lit "/v1/7")
path_template_matches_iff_example = path_template_matches_iff (lit "/v1/{id}") (lit "/v1/7")

find_open_api_path-FindsBest_example :
    FindsBest paths (path_of (lit "/v1/7")) (find_open_api_path paths (lit "/v1/7"))
find_open_api_path-FindsBest_example = find_open_api_path-FindsBest paths (lit "/v1/7")

resolve_object-some_iff_example :
    (resolve_object document (obj referring) 3 ≡ some referring)
    ↔ ((n : ℕ) × (n + 3 ≤ 8) × Leads document n (obj referring) referring)
resolve_object-some_iff_example = resolve_object-some_iff document (obj referring) 3 referring

is_concrete_schema_iff_example : (is_concrete_schema document (some referring) 0 ≡ true) ↔ (
    (fs : Fields) × (◌≡◌ {A = Option Fields} (some referring) (some fs))
    × Concrete document (9 - 0) fs)
is_concrete_schema_iff_example = is_concrete_schema_iff document (some referring) 0

query_parameter_contract_iff_example :
    (((query_parameter_contract operation).0 ≡ true) ↔ AnyItem IsQuery (parameters_of operation))
    × (((query_parameter_contract operation).1 ≡ true) ↔ (
        AnyItem IsQuery (parameters_of operation)
        × AllItems (λ p. IsQuery p → IsDeclared p) (parameters_of operation)))
query_parameter_contract_iff_example = query_parameter_contract_iff operation

inspect_specifications-Discovers_example :
    Discovers auditor.target 3 []
      (inspect_specifications out auditor spec url (lit "GET") [] true []).1
inspect_specifications-Discovers_example =
    inspect_specifications-Discovers out auditor spec url (lit "GET") [] true []

schema_for_value-SameShape_example :
    schema_for_value (λ schema. []) (obj (field (lit "n") (str (lit "a")) end)) 0
    ≡ schema_for_value (λ schema. []) (obj (field (lit "n") (str (lit "b")) end)) 0
schema_for_value-SameShape_example =
    schema_for_value-SameShape (λ schema. []) (obj (field (lit "n") (str (lit "a")) end))
      (obj (field (lit "n") (str (lit "b")) end)) 0
      (objects (more_fields (strings (lit "a") (lit "b")) no_fields))

review-IsTidy_example :
    IsTidy (final out auditor spec url (lit "GET") [] true [] (some challenge)).findings
review-IsTidy_example = review-IsTidy out auditor spec url (lit "GET") [] true [] (some challenge)

review-FirstPasses_iff_example :
    FirstPasses
      (finalize
        (tools_of out)
        (inspect_specifications out auditor spec url (lit "GET") [] true []).0
        url
        none
        (lit "GET")).0
    ↔ IsUsable spec url
        (lit "GET")
        (fetch_spec_document out auditor
          (document_url url (lit "/openapi.json"))
          (lit "openapi")
          []).0
review-FirstPasses_iff_example =
    review-FirstPasses_iff out auditor spec url (lit "GET") [] true [] none

abbrev sample : Json
sample = obj (
    field (lit "name") (str (lit "a"))
      (field (lit "counts") (arr (cons (num (lit "1")) (cons (num (lit "2")) nil))) end))

sample-IsPlain : IsPlain sample
unfolding lit keys contains_point ℕ_discrete
sample-IsPlain =
    plain_obj (omega arith) (omega arith)
      (λ o. elim o [ first e ↦ cc | later o' ↦ elim o' [ ] ], (λ o. elim o [ ], tt))
      (plain_field (plain_str (lit "a")) (
        plain_field
          (plain_arr (numbers refl, tt)
            (plain_cons (plain_num (lit "1")) (plain_cons (plain_num (lit "2")) plain_nil)))
          plain_end))

schema_for_value-Accepts_example : Accepts (schema_for_value (λ schema. []) sample 0) sample
schema_for_value-Accepts_example = schema_for_value-Accepts (λ schema. []) sample 0 sample-IsPlain
