-- ===== src/Auditor/Completion.antt =====
-- `complete` (internal/canary/auditor.go), and what one audit knows.
use canary.Base.{Text, text_eq, nat_eq, ok, err, Option, none, some, ◌∷◌}
use canary.Report.{AuditRequest, AuditReport}
use canary.Effect.{Url, History, saved}
use canary.Payment.{PaymentChallenge}
use canary.Auditor.{Outside, Inspector, Auditor}
use canary.Auditor.Checks.{Outcome, completed, broken}
use canary.Auditor.Scoring.{finalize_report}
use canary.Auditor.Evaluation.{add_checks}

module _ (out : Outside) (inspector : Inspector) (auditor : Auditor) where
  open inspector use {Inspection, inspect, finalize}

  -- What one audit knows from its start: the request, the target, the method, the inspection.
  pub record Job : Type 0 where
    pub request : AuditRequest
    pub url : Url
    pub method : Text
    pub inspection : Option Inspection

  -- The checks and the result of the inspection, if there was one.
  unfoldable pub add_review : AuditReport → Job → Option PaymentChallenge → AuditReport
  add_review report job challenge = elim job.inspection [
    | none ↦ report
    | some inspection ↦
        let (checks, result) = finalize inspection job.url challenge report.method in
        add_checks (record report { spec_review = some result }) checks
  ]

  unfoldable pub complete :
      AuditReport → Job → Option PaymentChallenge → History → Outcome × History
  unfolding add_review
  complete report job challenge h =
      let final = finalize_report (add_review report job challenge) in
      elim (out.save final h) [
        | err e ↦ (broken e, saved final ∷ h)
        | ok _ ↦ (completed final, saved final ∷ h)
      ]
