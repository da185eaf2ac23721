-- ===== src/Auditor/Flow/Open.antt =====
-- A report before and after `finalizeReport` (internal/canary/auditor.go).
use canary.Base.{
  nat_eq, if◌then◌else◌, ℕ, ◌≤◌, Text, Result-cases, Option-cases, ◌≡◌, inl, inr, refl, sym, subst,
  Bool, true, false, Option, List, All, All-append,
}
use canary.Report.{AuditRequest, AuditReport, Check, verified}
use canary.Effect.{Url, History}
use canary.Payment.{PaymentChallenge}
use canary.Auditor.{Outside, Inspector, Auditor}
use canary.Auditor.Checks.{Outcome, completed, invalid, broken}
use canary.Auditor.Scoring.{finalize_report}
use canary.Auditor.Scoring.Bounds.{WithinWeight, finalize_report-percent}
use canary.Auditor.Scoring.Verdicts.{SaysVerdict, finalize_report-SaysVerdict}
use canary.Auditor.Evaluation.{add_checks, evaluate_outcome}
use canary.Auditor.Evaluation.Points.{IsScoring, evaluate_outcome-WithinWeight}
use canary.Auditor.Evaluation.Laws.{evaluate_outcome-AddsOutcome}
use canary.Auditor.Completion.{Job, add_review, complete}

-- A report before it is finalised.
pub record IsOpen (request : AuditRequest) (report : AuditReport) : Type 0 where
  pub points : All WithinWeight report.checks
  pub score : report.score ≤ 100
  pub coverage : report.coverage_percent ≤ 100
  pub paid : report.tier ≡ verified → (request.pay ≡ true) × (report.payment.attempted ≡ true)

pub record IsFinal (request : AuditRequest) (report : AuditReport) : Type 0 where
  pub score : report.score ≤ 100
  pub coverage : report.coverage_percent ≤ 100
  pub verdict : SaysVerdict report.tier report.checks report.verdict
  pub paid : report.tier ≡ verified → (request.pay ≡ true) × (report.payment.attempted ≡ true)

abbrev pub Reports : AuditRequest → Outcome → Type 0
Reports request (completed report) = IsFinal request report
Reports request (invalid e) = Unit
Reports request (broken e) = Unit

-- The checks of a specification review have no more points than weight.
pub record FairInspector (inspector : Inspector) : Type 0 where
  pub fair :
      (inspection : inspector.Inspection) (url : Url) (challenge : Option PaymentChallenge)
      (method : Text)
      → All WithinWeight (inspector.finalize inspection url challenge method).0

module _ (request : AuditRequest) where
  pub IsOpen-add_checks :
      (report : AuditReport) (checks : List Check)
      → All WithinWeight checks
      → IsOpen request report
      → IsOpen request (add_checks report checks)
  IsOpen-add_checks report checks fair o = record {
    points = All-append _ report.checks checks o.points fair;
    score = o.score;
    coverage = o.coverage;
    paid = o.paid;
  }

  IsFinal-finalize_report :
      (report : AuditReport) → IsOpen request report → IsFinal request (finalize_report report)
  unfolding finalize_report
  IsFinal-finalize_report report o =
      let (score, coverage) = finalize_report-percent report o.points o.score o.coverage in
      record {
        score = score;
        coverage = coverage;
        verdict = finalize_report-SaysVerdict report;
        paid = o.paid;
      }

  pub if-Reports :
      (b : Bool) (x y : Outcome × History)
      → (b ≡ true → Reports request x.0)
      → (b ≡ false → Reports request y.0)
      → Reports request (if b then x else y).0
  if-Reports true x y p q = p refl
  if-Reports false x y p q = q refl

  module _ (out : Outside) (inspector : Inspector) (auditor : Auditor)
      (fair : FairInspector inspector) (scoring : IsScoring auditor.evaluator) where
    IsOpen-add_review :
        (report : AuditReport) (job : Job out inspector auditor)
        (challenge : Option PaymentChallenge)
        → IsOpen request report
        → IsOpen request (add_review out inspector auditor report job challenge)
    unfolding add_review
    IsOpen-add_review report job challenge o = elim (Option-cases job.inspection) [
      | inr (inspection, there) ↦
          rw (there, add_review)
            (IsOpen-add_checks _ _ (fair.fair inspection job.url challenge report.method)
              (record { points = o.points; score = o.score; coverage = o.coverage; paid = o.paid }))
      | inl missing ↦ rw (missing, add_review) o
    ]

    pub complete-Reports :
        (report : AuditReport) (job : Job out inspector auditor)
        (challenge : Option PaymentChallenge) (h : History)
        → IsOpen request report
        → Reports request (complete out inspector auditor report job challenge h).0
    unfolding complete
    complete-Reports report job challenge h o =
        let final = finalize_report (add_review out inspector auditor report job challenge) in
        let f : IsFinal request final =
          IsFinal-finalize_report _ (IsOpen-add_review report job challenge o) in
        elim (Result-cases (out.save final h)) [
          | inl (u, kept) ↦ rw (kept, complete) f
          | inr (e, lost) ↦ rw (lost, complete) tt
        ]

    pub evaluate_outcome-IsOpen :
        (report : AuditReport) (asked : AuditRequest) (status : ℕ) (content_type body : Text)
        (h : History)
        → IsOpen request report
        → IsOpen request (evaluate_outcome auditor report asked status content_type body h).0
    evaluate_outcome-IsOpen report asked status content_type body h o =
        let after = (evaluate_outcome auditor report asked status content_type body h).0 in
        let added = evaluate_outcome-AddsOutcome auditor asked status content_type body h report in
        let k = added.kept in
        record {
          points =
              evaluate_outcome-WithinWeight auditor report asked status content_type body h scoring
                o.points;
          score = subst (λ (r : AuditReport). r.score ≤ 100) (sym k) o.score;
          coverage = subst (λ (r : AuditReport). r.coverage_percent ≤ 100) (sym k) o.coverage;
          paid =
              subst
                (λ (r : AuditReport).
                  r.tier ≡ verified → (request.pay ≡ true) × (r.payment.attempted ≡ true))
                (sym k) o.paid;
        }
