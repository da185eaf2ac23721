-- ===== src/Spec/Analysis/Tidy.antt =====
-- The findings that `analyzeOpenAPI` (internal/canary/specsmith.go) adds.
use canary.Base.{
  nat_eq, text_eq, lit, Text, arith, Bool, Option-cases, inl, inr, Option, none, some,
}
use canary.Json.{Fields, get, as_object}
use canary.Report.{SpecReviewResult, SpecFinding}
use canary.Effect.{Url}
use canary.Spec.Findings.{IsTidy, with_finding-IsTidy}
use canary.Spec.Paths.{find_open_api_path}
use canary.Spec.Analysis.{
  find_if, found_operation, request_contract, response_contract, judge_request, judge_response,
  analyze_operation, operation_of, at_path, analyze_open_api,
}

pub find_if-IsTidy :
    (test : Bool) (finding : SpecFinding) (r : SpecReviewResult)
    → IsTidy r.findings
    → IsTidy (find_if test finding r).findings
find_if-IsTidy test finding r tidy = ground (arith, with_finding-IsTidy r finding)

module _ (document : Fields) (target : Url) (method : Text) where
  judge_request-IsTidy :
      (r : SpecReviewResult)
      → IsTidy r.findings
      → IsTidy (judge_request document target method r).findings
  unfolding judge_request
  judge_request-IsTidy r tidy = grind (arith, with_finding-IsTidy)

  judge_response-IsTidy :
      (r : SpecReviewResult)
      → IsTidy r.findings
      → IsTidy (judge_response document target method r).findings
  unfolding judge_response
  judge_response-IsTidy r tidy = grind (arith, with_finding-IsTidy)

  found_operation-IsTidy :
      (path : Text) (operation : Fields) (r : SpecReviewResult)
      → IsTidy r.findings
      → IsTidy (found_operation document target method path operation r).findings
  unfolding found_operation
  found_operation-IsTidy path operation r tidy = grind (arith, with_finding-IsTidy)

  analyze_operation-IsTidy :
      (path : Text) (operation : Fields) (r : SpecReviewResult)
      → IsTidy r.findings
      → IsTidy (analyze_operation document target method path operation r).findings
  unfolding analyze_operation
  analyze_operation-IsTidy path operation r tidy =
      let found = found_operation document target method path operation r in
      let described = record found {
        operation = request_contract document target method operation found.operation;
      } in
      let asked = judge_request document target method described in
      judge_response-IsTidy
        (record asked {
          operation = response_contract document target method operation asked.operation;
        })
        (judge_request-IsTidy described (found_operation-IsTidy path operation r tidy))

  at_path-IsTidy :
      (found : Option (Text × Fields)) (r : SpecReviewResult)
      → IsTidy r.findings
      → IsTidy (at_path document target method found r).findings
  unfolding at_path
  at_path-IsTidy none r tidy = with_finding-IsTidy r _ tidy
  at_path-IsTidy (some (path, item)) r tidy =
      elim (Option-cases (operation_of document target method item)) [
        | inl e ↦ rw (e, at_path) (with_finding-IsTidy r _ tidy)
        | inr (operation, e) ↦ rw (e, at_path) (analyze_operation-IsTidy path operation r tidy)
      ]

  pub analyze_open_api-IsTidy :
      (r : SpecReviewResult)
      → IsTidy r.findings
      → IsTidy (analyze_open_api document target method r).findings
  unfolding analyze_open_api
  analyze_open_api-IsTidy r tidy =
      elim (Option-cases (as_object (get (some document) (lit "paths")))) [
        | inl e ↦ rw (e, analyze_open_api) (with_finding-IsTidy r _ tidy)
        | inr (paths, e) ↦
            rw (e, analyze_open_api) (at_path-IsTidy (find_open_api_path paths target.path) r tidy)
      ]
