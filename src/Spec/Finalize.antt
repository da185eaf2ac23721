-- ===== src/Spec/Finalize.antt =====
-- The end of a review: `finalize` with its two checks (internal/canary/specsmith.go).
use canary.Base.{
  Text, lit, text_eq, nat_eq, if◌then◌else◌, Bool, true, false, ◌&&◌, ◌||◌, Option, none, some,
  List, [], ◌∷◌,
}
use canary.Report.{
  SpecFinding, SpecReviewResult, SpecDocument, Severity, error, warning, info, ReviewStatus, ready,
  needs_repair, Check, service_discovery, request_contract, Status, passed,
}
use canary.Effect.{Url}
use canary.Payment.{PaymentChallenge}
use canary.Auditor.Checks.{check}
use canary.Spec.{finding_of, with_finding}
use canary.Spec.Challenge.{UrlTools, is_post, analyze_challenge}

-- `finding.Severity == "error" || finding.Severity == "warning"`
abbrev pub is_blocking : Severity → Bool
is_blocking error = true
is_blocking warning = true
is_blocking info = false

-- The loop over the findings.
unfoldable pub needs_work : List SpecFinding → Bool
needs_work [] = false
needs_work (finding ∷ findings) = is_blocking finding.severity || needs_work findings

unfoldable pub review_status : List SpecFinding → ReviewStatus
review_status findings = if needs_work findings then needs_repair else ready

-- `s.result.Documents[0].Valid`; an inspection has three documents.
unfoldable pub first_valid : List SpecDocument → Bool
first_valid [] = false
first_valid (document ∷ documents) = document.valid

unfoldable pub discovery_check : SpecReviewResult → Check
unfolding first_valid
discovery_check r =
    if first_valid r.documents && r.operation.found
    then check service_discovery passed 15 15 (lit "OpenAPI 3.x documents the requested operation.")
    else check service_discovery Status.warning 15 7
        (lit "Public discovery is missing, invalid, or does not document the requested operation.")

contract_ready : SpecReviewResult → Text → Bool
contract_ready r method =
    r.operation.concrete_request_schema
    && (r.operation.concrete_response_schema
        && (r.challenge.resource_matches
            && (r.challenge.bazaar_extension
                && (if is_post method then r.challenge.bazaar_input_schema else true))))

unfoldable pub contract_check : SpecReviewResult → Text → Check
unfolding contract_ready is_post
contract_check r method =
    if contract_ready r method
    then check request_contract passed 15 15 (
        lit
          "Request, response, resource URL, and Bazaar metadata are concrete enough for an autonomous buyer.")
    else check request_contract Status.warning 15 7 (
        lit
          "The operation contract or x402 discovery metadata needs repair; generated artifacts are proposals requiring review.")

-- The challenge, or the finding that there is none.
unfoldable pub with_challenge :
    UrlTools → Url → SpecReviewResult → Option PaymentChallenge → Text → SpecReviewResult
with_challenge tools target r none method = with_finding r (
    finding_of (lit "challenge_metadata_unavailable") info
      (lit "No valid x402 challenge was available for metadata comparison.")
      (lit "Fix the live 402 challenge before relying on discovery metadata."))
with_challenge tools target r (some challenge) method =
    analyze_challenge tools target r challenge method

unfoldable pub finalize :
    UrlTools
    → SpecReviewResult
    → Url
    → Option PaymentChallenge
    → Text
    → List Check × SpecReviewResult
unfolding with_challenge review_status
finalize tools r target challenge method =
    let r' = with_challenge tools target r challenge method in
    let final = record r' { status = review_status r'.findings } in
    (discovery_check final ∷ contract_check final method ∷ [], final)
