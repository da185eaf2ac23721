-- ===== src/Auditor/Scoring.antt =====
-- `finalizeReport` (internal/canary/auditor.go).
pub mod Bounds
pub mod Verdicts
use canary.Base.{
  ℕ, ◌+◌, ◌*◌, ◌/◌, Text, lit, ltb, ◌==◌, if◌then◌else◌, Bool, true, false, not, ◌||◌, List, [],
  ◌∷◌,
}
use canary.Report.{
  Status, passed, warning, failed, skipped, status_eq, Check, Tier, probe, verified, Verdict, fail,
  probe_pass_with_warnings, probe_pass, pass_with_warnings, pass, AuditReport,
}

-- The variables of the loop.
pub record Totals : Type 0 where
  pub total_weight : ℕ
  pub assessed_weight : ℕ
  pub points : ℕ
  pub has_failure : Bool
  pub has_warning : Bool

abbrev pub no_totals : Totals
no_totals = record {
  total_weight = 0;
  assessed_weight = 0;
  points = 0;
  has_failure = false;
  has_warning = false;
}

abbrev pub is_status : Status → Status → Bool
is_status a b = a == b

unfoldable pub count_check : Totals → Check → Totals
count_check t check =
    let assessed = not (is_status check.status skipped) in
    record {
      total_weight = t.total_weight + check.weight;
      assessed_weight = if assessed then t.assessed_weight + check.weight else t.assessed_weight;
      points = if assessed then t.points + check.points else t.points;
      has_failure = t.has_failure || is_status check.status failed;
      has_warning = t.has_warning || is_status check.status warning;
    }

unfoldable pub count_checks : Totals → List Check → Totals
count_checks t [] = t
count_checks t (check ∷ checks) = count_checks (count_check t check) checks

-- The `switch`: the verdict and the summary.
unfoldable pub verdict_of : Tier → Bool → Bool → Verdict × Text
verdict_of tier true has_warning =
    (fail, lit "One or more required checks failed. Review the evidence before paying or retrying.")
verdict_of probe false true = (
  probe_pass_with_warnings,
  lit
      "The endpoint returned a valid x402 challenge without payment, but its public service contract needs repair.",
)
verdict_of probe false false =
    (probe_pass, lit "The endpoint returned a valid x402 challenge; no payment was made.")
verdict_of verified false true =
    (pass_with_warnings, lit "The paid request completed, with one or more evaluation warnings.")
verdict_of verified false false =
    (pass, lit "The x402 challenge, paid delivery, and requested outcome passed.")

-- The score and the coverage stay as they are where nothing is divided.
unfoldable pub finalize_report : AuditReport → AuditReport
finalize_report report =
    let t = count_checks no_totals report.checks in
    let (verdict, summary) = verdict_of report.tier t.has_failure t.has_warning in
    record report {
      score = if ltb 0 t.assessed_weight then t.points * 100 / t.assessed_weight else report.score;
      coverage_percent =
          if ltb 0 t.total_weight
          then t.assessed_weight * 100 / t.total_weight
          else report.coverage_percent;
      verdict = verdict;
      summary = summary;
    }
