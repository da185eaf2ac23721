-- ===== src/Spec/Inspection.antt =====
-- A whole review: `inspectSpecifications` (internal/canary/specsmith.go), and the interface of the
-- auditor that it fills.
pub mod Discovery
pub mod Tidy
pub mod Keeps
pub mod Usable
use canary.Base.{
  Text, lit, has_prefix, if◌then◌else◌, Bool, true, false, not, ◌&&◌, none, some, [], ◌∷◌,
}
use canary.Json.{get, string_value}
use canary.Report.{
  SpecReviewResult, SpecRepairBundle, SpecOperation, SpecChallengeReview, pending, error, warning,
}
use canary.Effect.{Url, History}
use canary.Auditor.{Outside, Auditor, Inspector, redacted_url}
use canary.Spec.Challenge.{UrlTools}
use canary.Spec.{finding_of, with_finding}
use canary.Spec.Verdict.{inspector_of}
use canary.Spec.Analysis.{analyze_open_api}
use canary.Spec.Registration.{analyze_registration, analyze_skill_document}
use canary.Spec.Documents.{
  Fetched, SpecDecoders, fetch_spec_document, document_url, decode_json_object, set_valid,
}
use canary.Spec.Repairs.{build_spec_repairs}

abbrev pub no_operation : SpecOperation
no_operation = record {
  found = false;
  open_api_path = [];
  method = [];
  summary = [];
  request_schema = false;
  concrete_request_schema = false;
  response_schema = false;
  concrete_response_schema = false;
  request_example = false;
  response_example = false;
}

abbrev pub no_challenge : SpecChallengeReview
no_challenge = record {
  resource_url = [];
  resource_matches = false;
  bazaar_extension = false;
  bazaar_input_schema = false;
  bazaar_output_schema = false;
}

-- `&url.URL` functions as the comparison with the challenge uses them.
abbrev pub tools_of : Outside → UrlTools
tools_of out = record {
  parse_request_uri = out.network.parse_request_uri;
  redact = redacted_url out;
}

-- What the OpenAPI document says.
unfoldable pub analyze_document :
    SpecDecoders → Url → Text → Fetched → SpecReviewResult → SpecReviewResult
unfolding set_valid
analyze_document d target method document r =
    if document.report.available && not document.report.response_truncated
    then elim (decode_json_object d document.body) [
      | none ↦ with_finding r (
          finding_of (lit "openapi_invalid") error
            (lit "The public OpenAPI document is not valid JSON object data.")
            (lit "Publish a valid OpenAPI 3.1 JSON document at /openapi.json."))
      | some parsed ↦
          if not (has_prefix (lit "3.") (string_value (get (some parsed) (lit "openapi"))))
          then with_finding r (
              finding_of (lit "openapi_version") error
                (lit "The public document does not declare an OpenAPI 3.x version.")
                (lit "Set openapi to 3.1.0 and validate the document before publishing it."))
          else analyze_open_api parsed target method
              (record r { documents = set_valid 0 r.documents })
    ]
    else if document.report.response_truncated
    then with_finding r (
        finding_of (lit "openapi_too_large") error
          (lit "The public OpenAPI document exceeds Canary402's 256 KiB inspection limit.")
          (lit "Publish a smaller operation-focused OpenAPI document."))
    else with_finding r (
        finding_of (lit "openapi_missing") warning
          (lit "No usable public OpenAPI document was found at /openapi.json.")
          (lit "Publish an OpenAPI 3.1 JSON document containing the paid operation."))

-- The result that the analysis starts from.
abbrev pub first_result : Fetched → Fetched → Fetched → SpecReviewResult
first_result openapi registration skill = record {
  requested = true;
  status = pending;
  documents = openapi.report ∷ registration.report ∷ skill.report ∷ [];
  operation = no_operation;
  challenge = no_challenge;
  findings = [];
  repairs = none;
}

-- `if generateRepairs { inspection.result.Repairs = buildSpecRepairs(…) }`
abbrev pub with_repairs : Bool → SpecRepairBundle → SpecReviewResult → SpecReviewResult
with_repairs true bundle r = record r { repairs = some bundle }
with_repairs false bundle r = r

module _ (out : Outside) (auditor : Auditor) (d : SpecDecoders) where
  -- Behind the three documents.
  unfoldable pub analyze_documents :
      Url → Text → Text → Bool → Fetched → Fetched → Fetched → SpecReviewResult
  analyze_documents target method request_body generate_repairs openapi registration skill =
      let r = analyze_skill_document skill (
        analyze_registration (tools_of out) target d registration
          (analyze_document d target method openapi (first_result openapi registration skill))) in
      with_repairs generate_repairs (build_spec_repairs out d target method request_body) r

  unfoldable pub inspect_specifications :
      Url → Text → Text → Bool → History → SpecReviewResult × History
  inspect_specifications target method request_body generate_repairs h =
      let (openapi, h1) =
        fetch_spec_document out auditor (document_url target (lit "/openapi.json")) (lit "openapi")
          h in
      let (registration, h2) =
        fetch_spec_document out auditor
          (document_url target (lit "/.well-known/agent-registration.json"))
          (lit "agent_registration") h1 in
      let (skill, h3) =
        fetch_spec_document out auditor (document_url target (lit "/skill.md")) (lit "skill") h2 in
      (analyze_documents target method request_body generate_repairs openapi registration skill, h3)

  -- `specInspection`, as the auditor uses it.
  abbrev pub spec_inspector : Inspector
  spec_inspector = inspector_of (tools_of out) inspect_specifications
