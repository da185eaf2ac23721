-- ===== src/Api/Pages.antt =====
-- The routes of `NewHTTPHandler` and the documents that `health` and `openapi` write
-- (internal/canary/httpapi.go). The mux of net/http, which looks a request up in the routes, and the
-- text of the landing page are left out.
pub mod Reviewed
use canary.Base.{Text, lit, String, Bool, true, false, Option, none, some, List, [], ◌∷◌}
use canary.Json.{Json, bool, num, str, arr, obj, Items, nil, cons, Fields, end, field}
use canary.Auditor.{Auditor, Evaluator}

pub data Handler : Type 0 where
  landing health openapi audit report : Handler

-- The patterns that are registered, with their handlers.
abbrev pub routes : List (Text × Handler)
routes =
    (lit "GET /", landing)
    ∷ (lit "GET /health", health)
    ∷ (lit "GET /openapi.json", openapi)
    ∷ (lit "POST /audit", audit)
    ∷ (lit "GET /reports/{id}", report)
    ∷ []

-- `h.auditor.evaluator != nil`
abbrev has_evaluator : Option Evaluator → Bool
has_evaluator none = false
has_evaluator (some evaluator) = true

unfoldable pub health_page : Auditor → Text → Json
health_page auditor version = obj (
    field (lit "status") (str (lit "ok")) (
      field (lit "service") (str (lit "canary402")) (
        field (lit "version") (str version) (
          field (lit "semantic_evaluation") (bool (has_evaluator auditor.evaluator)) (
            field (lit "spec_review") (bool true)
              (field (lit "repair_generation") (bool true) end))))))

abbrev text : String → Json
text s = str (lit s)

abbrev one : String → Json → Json
one key v = obj (field (lit key) v end)

abbrev two : String → Json → String → Json → Json
two k v k' v' = obj (field (lit k) v (field (lit k') v' end))

abbrev three : String → Json → String → Json → String → Json → Json
three k v k' v' k'' v'' = obj (field (lit k) v (field (lit k') v' (field (lit k'') v'' end)))

abbrev texts : List String → Items
texts [] = nil
texts (s ∷ more) = cons (text s) (texts more)

abbrev typed : String → Json
typed type = one "type" (text type)

-- An optional flag that is off.
abbrev flag : String → Json
flag description =
    three "type" (text "boolean") "default" (bool false) "description" (text description)

described : String → Json
described description = one "description" (text description)

-- The properties of an audit request.
unfoldable pub request_properties : Fields
unfolding described
request_properties = field (lit "url") (two "type" (text "string") "format" (text "uri")) (
    field (lit "method")
      (three "type" (text "string") "enum" (arr (texts ("GET" ∷ "POST" ∷ []))) "default"
        (text "GET"))
      (field (lit "body") (described "Optional JSON body") (
        field (lit "content_type")
          (two "type" (text "string") "enum" (arr (texts ("application/json" ∷ []))))
          (field (lit "expectation") (two "type" (text "string") "maxLength" (num (lit "2000"))) (
            field (lit "expected_status")
              (three "type" (text "integer") "minimum" (num (lit "100")) "maximum"
                (num (lit "599")))
              (field (lit "spec_review")
                (flag
                  "Inspect public OpenAPI, ERC-8004 registration, skill.md, and live x402 metadata without authorizing downstream spend.")
                (field (lit "generate_repairs")
                  (flag
                    "With spec_review, publish proposed value-free OpenAPI and Bazaar repair templates. Caller-supplied property names may appear in the public report.")
                  (field (lit "pay") (two "type" (text "boolean") "default" (bool false)) (
                    field (lit "max_payment_atomic")
                      (two "type" (text "string") "pattern" (text "^[0-9]+$"))
                      (field (lit "payment_network")
                        (two "type" (text "string") "examples"
                          (arr (texts ("base-sepolia" ∷ "base" ∷ []))))
                        (field (lit "payment_asset") (typed "string") end)))))))))))

request_schema : Json
unfolding request_properties
request_schema = obj (
    field (lit "type") (text "object") (
      field (lit "required") (arr (texts ("url" ∷ []))) (
        field (lit "additionalProperties") (bool false)
          (field (lit "properties") (obj request_properties) end))))

audit_operation : Json
unfolding described
audit_operation = obj (
    field (lit "summary") (text "Audit an x402 service") (
      field (lit "operationId") (text "auditService") (
        field (lit "requestBody")
          (two "required" (bool true) "content" (
            one "application/json"
              (one "schema" (one "$ref" (text "#/components/schemas/AuditRequest")))))
          (field (lit "responses")
            (two "200" (described "Audit report") "400" (described "Unsafe or invalid request"))
            end))))

-- `{"get": {"summary": …, "responses": {"200": {"description": …}}}}`
page : String → String → Json
unfolding described
page summary description =
    one "get" (two "summary" (text summary) "responses" (one "200" (described description)))

-- The document that `openapi` writes.
unfoldable pub service_document : Text → Fields
unfolding page audit_operation request_schema
service_document version = field (lit "openapi") (text "3.1.0") (
    field (lit "info")
      (three "title" (text "Canary402") "version" (str version) "description" (
        text
          "A specification inspector, repair generator, and budget-capped end-to-end mystery shopper for x402 services."))
      (field (lit "paths")
        (obj (
          field (lit "/") (page "Read Canary402 service information" "Canary402 landing page") (
            field (lit "/audit") (one "post" audit_operation) (
              field (lit "/reports/{id}") (page "Read a public audit report" "Audit report")
                (field (lit "/health") (page "Health check" "Healthy") end)))))
        (field (lit "components") (one "schemas" (one "AuditRequest" request_schema)) end)))
