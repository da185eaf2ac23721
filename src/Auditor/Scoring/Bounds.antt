-- ===== src/Auditor/Scoring/Bounds.antt =====
-- The score and the coverage that `finalizeReport` (internal/canary/auditor.go) computes.
use canary.Base.{ℕ, ◌*◌, ◌/◌, ◌≤◌, ◌<◌, List, [], ◌∷◌, All, arith}
use canary.Report.{status_eq, Check, AuditReport}
use canary.Auditor.Scoring.{Totals, no_totals, count_check, count_checks, finalize_report}

abbrev pub WithinWeight : Check → Type 0
WithinWeight c = c.points ≤ c.weight

count_checks-le :
    (t : Totals) (cs : List Check)
    → All WithinWeight cs
    → t.points ≤ t.assessed_weight
    → t.assessed_weight ≤ t.total_weight
    → ((count_checks t cs).points ≤ (count_checks t cs).assessed_weight)
      × ((count_checks t cs).assessed_weight ≤ (count_checks t cs).total_weight)
unfolding count_checks count_check
count_checks-le t [] all p q = (p, q)
count_checks-le t (c ∷ cs) (w, all) p q =
    count_checks-le (count_check t c) cs all (ground arith) (ground arith)

percent-le : (a b : ℕ) → a ≤ b → 0 < b → a * 100 / b ≤ 100
percent-le a b h p = grind arith

-- With no check above its weight, the score and the coverage are at most 100.
pub finalize_report-percent :
    (report : AuditReport)
    → All WithinWeight report.checks
    → report.score ≤ 100
    → report.coverage_percent ≤ 100
    → ((finalize_report report).score ≤ 100) × ((finalize_report report).coverage_percent ≤ 100)
unfolding finalize_report
finalize_report-percent report all s c =
    let t = count_checks no_totals report.checks in
    let (points, weights) =
      count_checks-le no_totals report.checks all (omega arith) (omega arith) in
    ground (
      arith,
      percent-le t.points t.assessed_weight points,
      percent-le t.assessed_weight t.total_weight weights,
    )
