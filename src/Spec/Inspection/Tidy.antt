-- ===== src/Spec/Inspection/Tidy.antt =====
-- The findings of a whole review (internal/canary/specsmith.go).
use canary.Base.{nat_eq, text_eq, Text, arith, Bool, Option}
use canary.Report.{SpecReviewResult}
use canary.Effect.{Url, History}
use canary.Payment.{PaymentChallenge}
use canary.Auditor.{Outside, Auditor}
use canary.Spec.Challenge.{UrlTools}
use canary.Spec.Finalize.{finalize}
use canary.Spec.Findings.{IsTidy, with_finding-IsTidy, finalize-IsTidy}
use canary.Spec.Analysis.Tidy.{analyze_open_api-IsTidy}
use canary.Spec.Registration.{analyze_registration, analyze_skill_document}
use canary.Spec.Documents.{Fetched, SpecDecoders}
use canary.Spec.Inspection.{tools_of, analyze_document, analyze_documents, inspect_specifications}

analyze_document-IsTidy :
    (d : SpecDecoders) (target : Url) (method : Text) (document : Fetched) (r : SpecReviewResult)
    → IsTidy r.findings
    → IsTidy (analyze_document d target method document r).findings
unfolding analyze_document
analyze_document-IsTidy d target method document r tidy =
    grind (arith, with_finding-IsTidy, analyze_open_api-IsTidy)

analyze_registration-IsTidy :
    (tools : UrlTools) (target : Url) (d : SpecDecoders) (document : Fetched) (r : SpecReviewResult)
    → IsTidy r.findings
    → IsTidy (analyze_registration tools target d document r).findings
unfolding analyze_registration
analyze_registration-IsTidy tools target d document r tidy = grind (arith, with_finding-IsTidy)

analyze_skill_document-IsTidy :
    (document : Fetched) (r : SpecReviewResult)
    → IsTidy r.findings
    → IsTidy (analyze_skill_document document r).findings
unfolding analyze_skill_document
analyze_skill_document-IsTidy document r tidy = grind (arith, with_finding-IsTidy)

module _ (out : Outside) (auditor : Auditor) (d : SpecDecoders) (target : Url) (method body : Text)
    (repairs : Bool) where
  pub analyze_documents-IsTidy :
      (openapi registration skill : Fetched)
      → IsTidy
          (analyze_documents out auditor d target method body repairs openapi registration
            skill).findings
  unfolding analyze_documents
  analyze_documents-IsTidy openapi registration skill =
      grind
        (arith, analyze_document-IsTidy, analyze_registration-IsTidy, analyze_skill_document-IsTidy)

  inspect_specifications-IsTidy :
      (h : History)
      → IsTidy (inspect_specifications out auditor d target method body repairs h).0.findings
  unfolding inspect_specifications
  inspect_specifications-IsTidy h = analyze_documents-IsTidy _ _ _

  -- The result of the review with its end.
  abbrev pub final : History → Option PaymentChallenge → SpecReviewResult
  final h challenge =
      let r = (inspect_specifications out auditor d target method body repairs h).0 in
      (finalize (tools_of out) r target challenge method).1

  -- A review of the program has at most 64 findings, no two of them with the same code, from its start to
  -- its end, whatever the documents and the challenge are.
  pub review-IsTidy :
      (h : History) (challenge : Option PaymentChallenge) → IsTidy (final h challenge).findings
  review-IsTidy h challenge =
      finalize-IsTidy (tools_of out)
        (inspect_specifications out auditor d target method body repairs h).0 target challenge
        method (inspect_specifications-IsTidy h)
