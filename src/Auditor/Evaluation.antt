-- ===== src/Auditor/Evaluation.antt =====
-- `evaluateOutcome` and `semanticOutcomeCheck` (internal/canary/auditor.go).
pub mod Laws
pub mod Points
use canary.Base.{
  ℕ, ◌*◌, ◌/◌, Text, lit, text_eq, nat_eq, ℤ, pos, negsuc, format_int, decimal, is_empty,
  trim_space, ltb, leb, ◌==◌, Result, ok, err, if◌then◌else◌, Bool, true, false, not, ◌&&◌, ◌||◌,
  Option, none, some, List, [], ◌∷◌, ◌++◌,
}
use canary.Evidence.{safe_error, preview}
use canary.Report.{
  AuditRequest, Status, passed, warning, failed, task_outcome, Check, SemanticResult, AuditReport,
}
use canary.Effect.{History, evaluated}
use canary.Auditor.{Auditor, Evaluator}

abbrev pub add_checks : AuditReport → List Check → AuditReport
add_checks report checks = record report { checks = report.checks ++ checks }

abbrev pub semantic_pass_score_floor : ℕ
semantic_pass_score_floor = 50

-- A `task_outcome` check.
abbrev pub outcome : Status → ℕ → Text → Check
outcome status points evidence = record {
  name = task_outcome;
  status = status;
  weight = 25;
  points = points;
  evidence = evidence;
}

unfoldable pub semantic_outcome_check : SemanticResult → Check
semantic_outcome_check result =
    let points = result.score * 25 / 100 in
    if not result.passed
    then outcome failed points result.reason
    else if ltb result.score semantic_pass_score_floor
    then outcome warning points (
        lit "Evaluator marked the outcome as passed but assigned only "
        ++ (decimal result.score ++ (lit "/100: " ++ result.reason)))
    else outcome passed points result.reason

abbrev pub is_status_code : ℤ → ℕ → Bool
is_status_code (pos n) status = n == status
is_status_code (negsuc n) status = false

abbrev pub is_success : ℕ → Bool
is_success status = leb 200 status && ltb status 300

abbrev pub status_passed : AuditRequest → ℕ → Bool
status_passed request status =
    (is_status_code request.expected_status 0 && is_success status)
    || is_status_code request.expected_status status

unmet_status : AuditRequest → ℕ → Text
unmet_status request status =
    let expected =
      if is_status_code request.expected_status 0
      then lit "a 2xx response"
      else lit "HTTP " ++ format_int request.expected_status in
    lit "Expected " ++ (expected ++ (lit " but received HTTP " ++ (decimal status ++ lit ".")))

-- The result of the evaluator in the report.
record_result : AuditReport → Result SemanticResult → AuditReport
record_result report (err e) =
    add_checks
      (record report {
        semantic = record {
          attempted = true;
          passed = false;
          score = 0;
          reason = [];
          model = [];
          error = safe_error e;
        };
      })
      (outcome warning 12
          (lit "HTTP status matched, but semantic evaluation failed: " ++ safe_error e)
        ∷ [])
record_result report (ok result) =
    add_checks (record report { semantic = result }) (semantic_outcome_check result ∷ [])

module _ (auditor : Auditor) where
  ask_evaluator :
      Option Evaluator
      → AuditReport
      → AuditRequest
      → ℕ
      → Text
      → Text
      → History
      → AuditReport × History
  ask_evaluator none report request status content_type body h = (
    add_checks
        (record report {
          semantic = record report.semantic { error = lit "semantic evaluator is not configured" };
        })
        (outcome warning 12 (lit "HTTP status matched, but semantic evaluation was unavailable.")
          ∷ []),
    h,
  )
  ask_evaluator (some evaluate) report request status content_type body h =
      let input = preview body auditor.config.semantic_input_bytes in
      (
        record_result report (evaluate request.expectation input status content_type h),
        evaluated request.expectation input ∷ h,
      )

  unfoldable pub evaluate_outcome :
      AuditReport → AuditRequest → ℕ → Text → Text → History → AuditReport × History
  unfolding unmet_status record_result ask_evaluator
  evaluate_outcome report request status content_type body h =
      if not (status_passed request status)
      then (add_checks report (outcome failed 0 (unmet_status request status) ∷ []), h)
      else if is_empty (trim_space request.expectation)
      then (
        add_checks report (
            outcome passed 25 (lit "Response status matched; no semantic expectation was supplied.")
            ∷ []),
        h,
      )
      else ask_evaluator auditor.evaluator report request status content_type body h
