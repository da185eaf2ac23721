-- ===== src/Spec/Inspection/Usable.antt =====
-- When the discovery check of a review (internal/canary/specsmith.go) passes.
use canary.Base.{
  nat_eq, text_eq, lit, Text, has_prefix, ◌≡◌, ◌↔◌, refl, ◌∙◌, ap, subst, arith, Bool, Bool-cases,
  Option-cases, inl, inr, true, false, ◌&&◌, Option, some, List, [], ◌∷◌,
}
use canary.Json.{Fields, get, string_value}
use canary.Report.{SpecReviewResult, SpecFinding, SpecDocument, Check, passed}
use canary.Effect.{Url, History}
use canary.Payment.{PaymentChallenge}
use canary.Auditor.{Outside, Auditor}
use canary.Spec.Challenge.{UrlTools}
use canary.Spec.Finalize.{with_challenge, first_valid, discovery_check, finalize}
use canary.Spec.{with_finding}
use canary.Spec.Analysis.{analyze_open_api}
use canary.Spec.Analysis.Found.{DocumentsOperation, analyze_open_api-IsAnalysed}
use canary.Spec.Registration.{analyze_registration, analyze_skill_document}
use canary.Spec.Documents.{
  fetch_spec_document, document_url, Fetched, SpecDecoders, decode_json_object, set_valid,
}
use canary.Spec.Repairs.{build_spec_repairs}
use canary.Spec.Inspection.{
  tools_of, first_result, with_repairs, analyze_document, analyze_documents, inspect_specifications,
}
use canary.Spec.Inspection.Keeps.{
  Keeps, analyze_registration-Keeps, analyze_skill_document-Keeps, with_challenge-Keeps,
  with_repairs-Keeps,
}

-- The document was fetched with status 200 and in whole, is one JSON object of OpenAPI 3, and documents
-- the operation.
pub record IsUsable (d : SpecDecoders) (target : Url) (method : Text) (document : Fetched)
    : Type 0 where
  pub available : document.report.available ≡ true
  pub whole : document.report.response_truncated ≡ false
  pub parsed : Fields
  pub decodes : decode_json_object d document.body ≡ some parsed
  pub version : has_prefix (lit "3.") (string_value (get (some parsed) (lit "openapi"))) ≡ true
  pub documented : DocumentsOperation parsed target method

-- What the check of the discovery asks.
abbrev Discovered : SpecReviewResult → Type 0
Discovered r = (first_valid r.documents && r.operation.found) ≡ true

Keeps-Discovered : (r r' : SpecReviewResult) → Keeps r r' → Discovered r ↔ Discovered r'
Keeps-Discovered r r' (same_operation, same_document) = ground arith

module _ (d : SpecDecoders) (target : Url) (method : Text) (document : Fetched) where
  -- A branch that only notes a finding.
  unusable :
      (r : SpecReviewResult) (finding : SpecFinding)
      → r.operation.found ≡ false
      → ¬ IsUsable d target method document
      → Discovered (with_finding r finding) ↔ IsUsable d target method document
  unfolding with_finding
  unusable r finding new missing = (λ e. ground arith, λ u. absurd (missing u))

  same_parsed :
      {parsed : Fields} (u : IsUsable d target method document)
      → decode_json_object d document.body ≡ some parsed
      → u.parsed ≡ parsed
  same_parsed u e = cc (u.decodes)

  -- A document of OpenAPI 3.
  usable :
      (r : SpecReviewResult) (first : SpecDocument) (others : List SpecDocument) (parsed : Fields)
      → r.documents ≡ first ∷ others
      → r.operation.found ≡ false
      → document.report.available ≡ true
      → document.report.response_truncated ≡ false
      → decode_json_object d document.body ≡ some parsed
      → has_prefix (lit "3.") (string_value (get (some parsed) (lit "openapi"))) ≡ true
      → Discovered
          (analyze_open_api parsed target method (record r { documents = set_valid 0 r.documents }))
        ↔ IsUsable d target method document
  usable r first others parsed listed new available whole decodes version =
      let r0 = record r { documents = set_valid 0 r.documents } in
      let done = analyze_open_api-IsAnalysed parsed target method r0 new in
      let head : first_valid r0.documents ≡ true =
        unfold first_valid set_valid in ap (λ ds. first_valid (set_valid 0 ds)) listed in
      let kept : first_valid (analyze_open_api parsed target method r0).documents ≡ true =
        ap first_valid done.documents ∙ head in
      (
        λ e. record {
          available = available;
          whole = whole;
          parsed = parsed;
          decodes = decodes;
          version = version;
          documented = done.sound (ground arith);
        },
        λ u.
            let found = done.complete (
              subst (λ p. DocumentsOperation p target method) (same_parsed u decodes)
                u.documented) in
            rw (kept, found) refl,
      )

  analyze_document-Discovered :
      (r : SpecReviewResult) (first : SpecDocument) (others : List SpecDocument)
      → r.documents ≡ first ∷ others
      → r.operation.found ≡ false
      → Discovered (analyze_document d target method document r) ↔ IsUsable d target method document
  unfolding analyze_document
  analyze_document-Discovered r first others listed new =
      elim (Bool-cases document.report.available) [
        | inr missing ↦ elim (Bool-cases document.report.response_truncated) [
          | inl cut ↦ simp (missing, cut) (unusable r _ new (λ u. cc (u.available)))
          | inr whole ↦ simp (missing, whole) (unusable r _ new (λ u. cc (u.available)))
        ]
        | inl available ↦ elim (Bool-cases document.report.response_truncated) [
          | inl cut ↦ simp (available, cut) (unusable r _ new (λ u. cc (u.whole)))
          | inr whole ↦ elim (Option-cases (decode_json_object d document.body)) [
            | inl broken ↦ simp (available, whole, broken) (unusable r _ new (λ u. cc (u.decodes)))
            | inr (parsed, decodes) ↦
                elim (Bool-cases
                  (has_prefix (lit "3.") (string_value (get (some parsed) (lit "openapi"))))) [
                    | inr old ↦
                        simp (available, whole, decodes, old)
                          (unusable r _ new (λ u. cc (u.version, same_parsed u decodes)))
                    | inl version ↦
                        simp (available, whole, decodes, version)
                          (usable r first others parsed listed new available whole decodes version)
                  ]
          ]
        ]
      ]

-- The first check of a list passes.
abbrev pub FirstPasses : List Check → Type 0
FirstPasses [] = ⊥
FirstPasses (c ∷ cs) = c.status ≡ passed

discovery_check-passed_iff :
    (r : SpecReviewResult) → ((discovery_check r).status ≡ passed) ↔ Discovered r
unfolding discovery_check
discovery_check-passed_iff r = ground arith

Discovered-Keeps : (r r' : SpecReviewResult) → Keeps r r' → Discovered r' ↔ Discovered r
Discovered-Keeps r r' k = let (a, b) = Keeps-Discovered r r' k in (b, a)

trans_iff : {A B C : Type 0} → A ↔ B → B ↔ C → A ↔ C
trans_iff p q = (λ a. q.0 (p.0 a), λ c. p.1 (q.1 c))

finalize-FirstPasses :
    (tools : UrlTools) (r : SpecReviewResult) (target : Url) (challenge : Option PaymentChallenge)
    (method : Text)
    → FirstPasses (finalize tools r target challenge method).0 ↔ Discovered r
unfolding finalize
finalize-FirstPasses tools r target challenge method =
    let r' = with_challenge tools target r challenge method in
    let (back, forth) =
      Keeps-Discovered r r' (with_challenge-Keeps tools target r challenge method) in
    trans_iff (discovery_check-passed_iff _) (forth, back)

module _ (out : Outside) (auditor : Auditor) (d : SpecDecoders) (target : Url) (method body : Text)
    (repairs : Bool) where
  analyze_documents-Discovered :
      (openapi registration skill : Fetched)
      → Discovered
          (analyze_documents out auditor d target method body repairs openapi registration skill)
        ↔ IsUsable d target method openapi
  unfolding analyze_documents
  analyze_documents-Discovered openapi registration skill =
      let r0 = first_result openapi registration skill in
      let r1 = analyze_document d target method openapi r0 in
      let r2 = analyze_registration (tools_of out) target d registration r1 in
      let r3 = analyze_skill_document skill r2 in
      let bundle = build_spec_repairs out d target method body in
      trans_iff
        (Discovered-Keeps r3 (with_repairs repairs bundle r3)
          (with_repairs-Keeps repairs bundle r3))
        (trans_iff (Discovered-Keeps r2 r3 (analyze_skill_document-Keeps skill r2)) (
          trans_iff
            (Discovered-Keeps r1 r2
              (analyze_registration-Keeps (tools_of out) target d registration r1))
            (analyze_document-Discovered d target method openapi r0 _ _ refl refl)))

  -- The check of the discovery, the first of a review, passes exactly if the OpenAPI document was fetched
  -- with status 200 and in whole, is one JSON object of OpenAPI 3, and has an object at the method of
  -- the path that is taken for the target, whatever the other documents and the challenge are.
  pub review-FirstPasses_iff :
      (h : History) (challenge : Option PaymentChallenge)
      → FirstPasses
          (finalize
            (tools_of out)
            (inspect_specifications out auditor d target method body repairs h).0
            target
            challenge
            method).0
        ↔ IsUsable d target method
            (fetch_spec_document out auditor
              (document_url target (lit "/openapi.json"))
              (lit "openapi")
              h).0
  unfolding inspect_specifications
  review-FirstPasses_iff h challenge =
      trans_iff
        (finalize-FirstPasses (tools_of out)
          (inspect_specifications out auditor d target method body repairs h).0 target challenge
          method)
        (analyze_documents-Discovered _ _ _)
