-- ===== src/Spec.antt =====
-- The specification review (internal/canary/specsmith.go): the list of findings, `addFinding`.
pub mod Findings
pub mod Paths
pub mod Refs
pub mod Schemas
pub mod Analysis
pub mod Documents
pub mod Registration
pub mod Repairs
pub mod Inspection
pub mod Challenge
pub mod Finalize
pub mod Verdict
use canary.Base.{
  ℕ, Text, text_eq, nat_eq, leb, ◌==◌, length, if◌then◌else◌, Bool, false, ◌||◌, List, [], ◌∷◌,
  ◌++◌,
}
use canary.Report.{SpecFinding, SpecReviewResult, Severity}

abbrev pub max_spec_findings : ℕ
max_spec_findings = 64

unfoldable pub has_code : Text → List SpecFinding → Bool
has_code code [] = false
has_code code (finding ∷ findings) = finding.code == code || has_code code findings

-- `addFinding`, on the findings so far.
unfoldable pub add_finding : List SpecFinding → SpecFinding → List SpecFinding
add_finding findings finding =
    if leb max_spec_findings (length findings) || has_code finding.code findings
    then findings
    else findings ++ finding ∷ []

abbrev pub finding_of : Text → Severity → Text → Text → SpecFinding
finding_of code severity message repair = record {
  code = code;
  severity = severity;
  message = message;
  repair = repair;
}

unfoldable pub with_finding : SpecReviewResult → SpecFinding → SpecReviewResult
with_finding r finding = record r { findings = add_finding r.findings finding }
