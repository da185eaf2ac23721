-- ===== src/Auditor/Evaluation/Points.antt =====
-- The points of a `task_outcome` check of `evaluateOutcome` (internal/canary/auditor.go).
use canary.Base.{
  ℕ, ◌≤◌, Text, Result, ok, err, Option, none, some, All, All-append, ◌≡◌, refl, arith, Bool-cases,
  inl, inr, is_empty, trim_space,
}
use canary.Report.{AuditRequest, SemanticResult, AuditReport}
use canary.Effect.{History}
use canary.Auditor.{Auditor, Evaluator}
use canary.Auditor.Scoring.Bounds.{WithinWeight}
use canary.Auditor.Evaluation.{
  semantic_outcome_check, status_passed, record_result, ask_evaluator, evaluate_outcome,
}

-- An evaluator scores from 0 to 100.
abbrev pub IsScoring : Option Evaluator → Type 0
IsScoring none = Unit
IsScoring (some evaluate) =
    (expectation input : Text) (status : ℕ) (content_type : Text) (h : History) (r : SemanticResult)
    → evaluate expectation input status content_type h ≡ ok r
    → r.score ≤ 100

semantic_outcome_check-WithinWeight :
    (r : SemanticResult) → r.score ≤ 100 → WithinWeight (semantic_outcome_check r)
unfolding semantic_outcome_check
semantic_outcome_check-WithinWeight r h = ground arith

record_result-WithinWeight :
    (report : AuditReport) (answer : Result SemanticResult)
    → ((r : SemanticResult) → answer ≡ ok r → r.score ≤ 100)
    → All WithinWeight report.checks
    → All WithinWeight (record_result report answer).checks
unfolding record_result
record_result-WithinWeight report (err e) scores all =
    All-append _ report.checks _ all (omega arith)
record_result-WithinWeight report (ok r) scores all =
    All-append _ report.checks _ all (semantic_outcome_check-WithinWeight r (scores r refl), tt)

module _ (auditor : Auditor) where
  ask_evaluator-WithinWeight :
      (evaluator : Option Evaluator) (report : AuditReport) (request : AuditRequest) (status : ℕ)
      (content_type body : Text) (h : History)
      → IsScoring evaluator
      → All WithinWeight report.checks
      → All WithinWeight
          (ask_evaluator auditor evaluator report request status content_type body h).0.checks
  unfolding ask_evaluator
  ask_evaluator-WithinWeight none report request status content_type body h scores all =
      All-append _ report.checks _ all (omega arith)
  ask_evaluator-WithinWeight (some evaluate) report request status content_type body h scores all =
      record_result-WithinWeight report _ (scores _ _ status content_type h) all

  -- With an evaluator that scores up to 100, the evaluation keeps every check within its weight.
  pub evaluate_outcome-WithinWeight :
      (report : AuditReport) (request : AuditRequest) (status : ℕ) (content_type body : Text)
      (h : History)
      → IsScoring auditor.evaluator
      → All WithinWeight report.checks
      → All WithinWeight
          (evaluate_outcome auditor report request status content_type body h).0.checks
  unfolding evaluate_outcome
  evaluate_outcome-WithinWeight report request status content_type body h scores all =
      elim (Bool-cases (status_passed request status)) [
        | inr unmet ↦ rw (unmet, evaluate_outcome) (All-append _ report.checks _ all (omega arith))
        | inl met ↦ elim (Bool-cases (is_empty (trim_space request.expectation))) [
          | inl silent ↦
              rw (met, silent, evaluate_outcome) (All-append _ report.checks _ all (omega arith))
          | inr words ↦
              rw (met, words, evaluate_outcome)
                (ask_evaluator-WithinWeight auditor.evaluator report request status content_type
                  body h scores all)
        ]
      ]
