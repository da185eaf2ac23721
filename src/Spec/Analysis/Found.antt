-- ===== src/Spec/Analysis/Found.antt =====
-- When `analyzeOpenAPI` (internal/canary/specsmith.go) finds the operation.
use canary.Base.{
  nat_eq, text_eq, lit, to_lower, Text, ◌≡◌, refl, ◌∙◌, arith, Option-cases, inl, inr, true, false,
  some,
}
use canary.Json.{Fields, get, as_object}
use canary.Report.{SpecReviewResult, SpecFinding, SpecOperation}
use canary.Effect.{Url}
use canary.Spec.{with_finding}
use canary.Spec.Paths.{find_open_api_path}
use canary.Spec.Analysis.{
  found_operation, request_contract, response_contract, judge_request, judge_response,
  analyze_operation, operation_of, at_path, analyze_open_api,
}

-- The document has a path for the target, with an object at the method.
pub record DocumentsOperation (document : Fields) (target : Url) (method : Text) : Type 0 where
  pub paths : Fields
  pub has_paths : as_object (get (some document) (lit "paths")) ≡ some paths
  pub path : Text
  pub item : Fields
  pub has_path : find_open_api_path paths target.path ≡ some (path, item)
  pub operation : Fields
  pub has_operation : as_object (get (some item) (to_lower method)) ≡ some operation

module _ (document : Fields) (target : Url) (method : Text) where
  -- The operation is found or not as before, and the documents are the same.
  abbrev pub Keeps : SpecReviewResult → SpecReviewResult → Type 0
  Keeps r r' = (r'.operation.found ≡ r.operation.found) × (r'.documents ≡ r.documents)

  judge_request-Keeps : (r : SpecReviewResult) → Keeps r (judge_request document target method r)
  unfolding judge_request with_finding
  judge_request-Keeps r = (ground arith, ground arith)

  judge_response-Keeps : (r : SpecReviewResult) → Keeps r (judge_response document target method r)
  unfolding judge_response with_finding
  judge_response-Keeps r = (ground arith, ground arith)

  request_contract-found :
      (operation : Fields) (o : SpecOperation)
      → (request_contract document target method operation o).found ≡ o.found
  unfolding request_contract
  request_contract-found operation o = ground arith

  found_operation-found :
      (path : Text) (operation : Fields) (r : SpecReviewResult)
      → ((found_operation document target method path operation r).operation.found ≡ true)
        × ((found_operation document target method path operation r).documents ≡ r.documents)
  unfolding found_operation with_finding
  found_operation-found path operation r = (ground arith, ground arith)

  analyze_operation-found :
      (path : Text) (operation : Fields) (r : SpecReviewResult)
      → ((analyze_operation document target method path operation r).operation.found ≡ true)
        × ((analyze_operation document target method path operation r).documents ≡ r.documents)
  unfolding analyze_operation response_contract
  analyze_operation-found path operation r =
      let found = found_operation document target method path operation r in
      let described = record found {
        operation = request_contract document target method operation found.operation;
      } in
      let asked = judge_request document target method described in
      let last = record asked {
        operation = response_contract document target method operation asked.operation;
      } in
      let (a, a') = found_operation-found path operation r in
      let (b, b') = judge_request-Keeps described in
      let (c, c') = judge_response-Keeps last in
      (c ∙ b ∙ request_contract-found operation found.operation ∙ a, c' ∙ b' ∙ a')

  -- What the analysis says of a review that has no operation yet.
  pub record IsAnalysed (r r' : SpecReviewResult) : Type 0 where
    pub documents : r'.documents ≡ r.documents
    pub sound : r'.operation.found ≡ true → DocumentsOperation document target method
    pub complete : DocumentsOperation document target method → r'.operation.found ≡ true

  unfound :
      (r : SpecReviewResult) (finding : SpecFinding)
      → r.operation.found ≡ false
      → ¬ DocumentsOperation document target method
      → IsAnalysed r (with_finding r finding)
  unfolding with_finding
  unfound r finding new missing = record {
    documents = refl;
    sound = λ e. cc;
    complete = λ o. absurd (missing o);
  }

  pub analyze_open_api-IsAnalysed :
      (r : SpecReviewResult)
      → r.operation.found ≡ false
      → IsAnalysed r (analyze_open_api document target method r)
  unfolding analyze_open_api operation_of
  analyze_open_api-IsAnalysed r new =
      elim (Option-cases (as_object (get (some document) (lit "paths")))) [
        | inl e ↦ rw (e, analyze_open_api) (unfound r _ new (λ o. cc (o.has_paths)))
        | inr (paths, e) ↦ elim (Option-cases (find_open_api_path paths target.path)) [
          | inl e' ↦
              rw (e, e', analyze_open_api, at_path)
                (unfound r _ new
                  (λ o. let same : o.paths ≡ paths = cc (o.has_paths) in cc (o.has_path, same)))
          | inr ((path, item), e') ↦
              elim (Option-cases (operation_of document target method item)) [
                | inl e'' ↦
                    rw (e, e', e'', analyze_open_api, at_path)
                      (unfound r _ new (λ o.
                        let same : o.paths ≡ paths = cc (o.has_paths) in
                        let at : o.item ≡ item = cc (o.has_path, same) in cc (o.has_operation, at)))
                | inr (operation, e'') ↦
                    let (is_found, same) = analyze_operation-found path operation r in
                    rw (e, e', e'', analyze_open_api, at_path)
                      (record {
                        documents = same;
                        sound = λ _. record {
                          paths = paths;
                          has_paths = e;
                          path = path;
                          item = item;
                          has_path = e';
                          operation = operation;
                          has_operation = e'';
                        };
                        complete = λ o. is_found;
                      })
              ]
        ]
      ]
