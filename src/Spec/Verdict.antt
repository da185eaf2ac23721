-- ===== src/Spec/Verdict.antt =====
-- The checks and the status that `finalize` (internal/canary/specsmith.go) gives a review.
use canary.Base.{Text, ◌≡◌, ◌↔◌, ◌⊎◌, refl, arith, Bool, false, Option, List, [], ◌∷◌, All}
use canary.Report.{SpecFinding, SpecReviewResult, info, ready, needs_repair, Check, Status, passed}
use canary.Effect.{Url, History}
use canary.Payment.{PaymentChallenge}
use canary.Auditor.{Inspector}
use canary.Auditor.Scoring.Bounds.{WithinWeight}
use canary.Auditor.Flow.Open.{FairInspector}
use canary.Spec.Challenge.{UrlTools}
use canary.Spec.Finalize.{needs_work, review_status, discovery_check, contract_check, finalize}

-- A check that passed or warns, and has no more points than weight.
pub record IsAdvisory (c : Check) : Type 0 where
  pub status : (c.status ≡ passed) ⊎ (c.status ≡ Status.warning)
  pub within : WithinWeight c
  pub full : (c.status ≡ passed) ↔ (c.points ≡ c.weight)

discovery_check-IsAdvisory : (r : SpecReviewResult) → IsAdvisory (discovery_check r)
unfolding discovery_check
discovery_check-IsAdvisory r = record {
  status = ground arith;
  within = ground arith;
  full = ground arith;
}

contract_check-IsAdvisory :
    (r : SpecReviewResult) (method : Text) → IsAdvisory (contract_check r method)
unfolding contract_check
contract_check-IsAdvisory r method = record {
  status = ground arith;
  within = ground arith;
  full = ground arith;
}

abbrev pub IsMinor : SpecFinding → Type 0
IsMinor finding = finding.severity ≡ info

needs_work_iff :
    (findings : List SpecFinding) → (needs_work findings ≡ false) ↔ All IsMinor findings
unfolding needs_work
needs_work_iff [] = (λ h. tt, λ h. refl)
needs_work_iff (finding ∷ findings) = ground (arith, needs_work_iff findings)

-- What a finalised review says.
pub record IsReview (checks : List Check) (r : SpecReviewResult) : Type 0 where
  pub advisory : All IsAdvisory checks
  pub ready_iff : (r.status ≡ ready) ↔ All IsMinor r.findings
  pub repair_iff : (r.status ≡ needs_repair) ↔ (¬ All IsMinor r.findings)

review_status-ready_iff :
    (findings : List SpecFinding) → (review_status findings ≡ ready) ↔ All IsMinor findings
unfolding review_status
review_status-ready_iff findings = ground (arith, needs_work_iff findings)

review_status-repair_iff :
    (findings : List SpecFinding)
    → (review_status findings ≡ needs_repair) ↔ (¬ All IsMinor findings)
unfolding review_status
review_status-repair_iff findings = ground (arith, needs_work_iff findings)

-- The checks of a review pass or warn, never fail or skip, and have all their points exactly if they
-- pass. The review is ready exactly if each finding is only information, and needs repair otherwise.
pub finalize-IsReview :
    (tools : UrlTools) (r : SpecReviewResult) (target : Url) (challenge : Option PaymentChallenge)
    (method : Text)
    → IsReview
        (finalize tools r target challenge method).0
        (finalize tools r target challenge method).1
unfolding finalize
finalize-IsReview tools r target challenge method = record {
  advisory = (discovery_check-IsAdvisory _, (contract_check-IsAdvisory _ method, tt));
  ready_iff = review_status-ready_iff _;
  repair_iff = review_status-repair_iff _;
}

-- The review as the auditor uses it, with its beginning as a parameter.
abbrev pub inspector_of :
    UrlTools → (Url → Text → Text → Bool → History → SpecReviewResult × History) → Inspector
inspector_of tools inspect = record {
  Inspection = SpecReviewResult;
  inspect = inspect;
  finalize = λ r target challenge method. finalize tools r target challenge method;
}

-- However it begins, the review is fair, as the auditor assumes.
pub inspector_of-FairInspector :
    (tools : UrlTools) (inspect : Url → Text → Text → Bool → History → SpecReviewResult × History)
    → FairInspector (inspector_of tools inspect)
unfolding finalize
inspector_of-FairInspector tools inspect = record {
  fair = λ r target challenge method.
      let (d, (c, _)) = (finalize-IsReview tools r target challenge method).advisory in
      (d.within, (c.within, tt));
}
