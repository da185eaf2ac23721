-- ===== src/Spec/Analysis.antt =====
-- What a review finds in the OpenAPI document: `analyzeOpenAPI` (internal/canary/specsmith.go).
pub mod Tidy
pub mod Found
use canary.Base.{
  ℕ, Text, lit, text_eq, is_empty, to_lower, ◌==◌, if◌then◌else◌, Bool, true, false, not, ◌&&◌,
  ◌||◌, Option, none, some,
}
use canary.Json.{Fields, Object, get, as_object, string_value}
use canary.Report.{SpecReviewResult, SpecOperation, error, warning, info, SpecFinding}
use canary.Evidence.{truncate_text, preview}
use canary.Effect.{Url}
use canary.Spec.{finding_of, with_finding}
use canary.Spec.Paths.{find_open_api_path}
use canary.Spec.Schemas.{
  request_body_schema, successful_response_schema, is_concrete_schema, query_parameter_contract,
}

-- `safeSpecText`
unfoldable pub safe_spec_text : Text → ℕ → Text
safe_spec_text value limit = truncate_text (preview value limit) limit

-- `if test { s.addFinding(finding) }`
abbrev pub find_if : Bool → SpecFinding → SpecReviewResult → SpecReviewResult
find_if test finding r = if test then with_finding r finding else r

-- `schema != nil`
abbrev pub is_schema : Object → Bool
is_schema none = false
is_schema (some schema) = true

abbrev with_operation : SpecOperation → SpecReviewResult → SpecReviewResult
with_operation operation r = record r { operation = operation }

module _ (document : Fields) (target : Url) (method : Text) where
  is_post : Bool
  is_post = method == lit "POST"

  requires_input : Bool
  unfolding is_post
  requires_input = is_post || not (is_empty target.raw_query)

  -- The path, the method and the summary.
  found_operation : Text → Fields → SpecReviewResult → SpecReviewResult
  found_operation path operation r =
      let summary = safe_spec_text (string_value (get (some operation) (lit "summary"))) 240 in
      find_if (is_empty summary)
        (finding_of (lit "summary_missing") warning
          (lit "The paid operation has no concise OpenAPI summary.")
          (lit "Add a public summary that states what a buyer receives."))
        (with_operation
          (record r.operation {
            found = true;
            open_api_path = path;
            method = method;
            summary = summary;
          })
          r)

  -- What the operation says of its input, for each kind of request.
  request_contract : Fields → SpecOperation → SpecOperation
  request_contract operation o =
      let (schema, example) = request_body_schema document operation in
      let (any, concrete) = query_parameter_contract operation in
      if is_post
      then record o {
        request_schema = is_schema schema;
        concrete_request_schema = is_concrete_schema document schema 0;
        request_example = example;
      }
      else if requires_input
      then record o { request_schema = any; concrete_request_schema = concrete }
      else record o { request_schema = true; concrete_request_schema = true }

  judge_request : SpecReviewResult → SpecReviewResult
  judge_request r =
      let r' =
        if not r.operation.request_schema
        then with_finding r (
            finding_of (lit "request_schema_missing") error
              (lit "The paid operation does not document its request shape.")
              (lit "Add an application/json request schema or explicit query parameters."))
        else find_if (not r.operation.concrete_request_schema)
            (finding_of (lit "request_schema_generic") warning
              (lit "The request schema exists but is too generic for an autonomous buyer.")
              (lit "Declare concrete properties, types, and required fields."))
            r in
      find_if (requires_input && not r.operation.request_example)
        (finding_of (lit "request_example_missing") info
          (lit "No non-sensitive request example is published.")
          (lit "Add an example that validates against the request schema."))
        r'

  response_contract : Fields → SpecOperation → SpecOperation
  response_contract operation o =
      let (schema, example) = successful_response_schema document operation in
      record o {
        response_schema = is_schema schema;
        concrete_response_schema = is_concrete_schema document schema 0;
        response_example = example;
      }

  judge_response : SpecReviewResult → SpecReviewResult
  judge_response r =
      let r' =
        if not r.operation.response_schema
        then with_finding r (
            finding_of (lit "response_schema_missing") warning
              (lit "The paid operation does not document a successful JSON response schema.")
              (lit
                "Document the successful response without publishing confidential example values."))
        else find_if (not r.operation.concrete_response_schema)
            (finding_of (lit "response_schema_generic") warning
              (lit "The successful response schema is too generic to validate automatically.")
              (lit "Declare concrete response fields and types."))
            r in
      find_if (not r.operation.response_example)
        (finding_of (lit "response_example_missing") info
          (lit "No non-sensitive successful response example is published.")
          (lit "Add a redacted example that validates against the response schema."))
        r'

  -- Behind the method of the path.
  analyze_operation : Text → Fields → SpecReviewResult → SpecReviewResult
  unfolding found_operation request_contract judge_request response_contract judge_response
      requires_input is_post
  analyze_operation path operation r =
      let r' = found_operation path operation r in
      let asked = judge_request (with_operation (request_contract operation r'.operation) r') in
      judge_response (with_operation (response_contract operation asked.operation) asked)

  -- The operation of the method.
  operation_of : Fields → Object
  operation_of item = as_object (get (some item) (to_lower method))

  at_path : Option (Text × Fields) → SpecReviewResult → SpecReviewResult
  at_path none r = with_finding r (
      finding_of (lit "operation_missing") error
        (lit "The requested paid route is not documented in OpenAPI.")
        (lit "Add the requested route and method to /openapi.json."))
  at_path (some (path, item)) r = elim (operation_of item) [
    | none ↦ with_finding r (
        finding_of (lit "method_missing") error
          (lit "The requested HTTP method is not documented for the matching OpenAPI path.")
          (lit "Add the requested method beneath the matching OpenAPI path."))
    | some operation ↦ analyze_operation path operation r
  ]

  unfoldable pub analyze_open_api : SpecReviewResult → SpecReviewResult
  unfolding at_path operation_of analyze_operation
  analyze_open_api r = elim (as_object (get (some document) (lit "paths"))) [
    | none ↦ with_finding r (
        finding_of (lit "openapi_paths_missing") error
          (lit "The OpenAPI document has no paths object.")
          (lit "Add the paid operation beneath the OpenAPI paths object."))
    | some paths ↦ at_path (find_open_api_path paths target.path) r
  ]
