-- ===== src/Spec/Findings.antt =====
-- The list of findings as `addFinding` and `finalize` (internal/canary/specsmith.go) extend it.
use canary.Base.{
  ◌≤◌, Text, text_eq, trim_space, length, length-append, leb, ◌==◌, Bool-cases, ◌≡◌, inl, inr, refl,
  arith, false, ◌||◌, Option, none, some, List, [], ◌∷◌, ◌++◌,
}
use canary.Json.{Object}
use canary.Report.{SpecFinding, SpecReviewResult}
use canary.Effect.{Url}
use canary.Payment.{PaymentChallenge}
use canary.Spec.Challenge.{
  UrlTools, compare_resource, analyze_resource, described_bazaar, analyze_bazaar, analyze_challenge,
}
use canary.Spec.Finalize.{with_challenge, finalize}
use canary.Spec.{has_code, add_finding, with_finding}

-- No two findings have the same code.
abbrev pub HasDistinct : List SpecFinding → Type 0
HasDistinct [] = Unit
HasDistinct (finding ∷ findings) = (has_code finding.code findings ≡ false) × HasDistinct findings

abbrev pub IsTidy : List SpecFinding → Type 0
IsTidy findings = (length findings ≤ 64) × HasDistinct findings

has_code-append :
    (code : Text) (findings : List SpecFinding) (finding : SpecFinding)
    → has_code code (findings ++ finding ∷ []) ≡ (has_code code findings || finding.code == code)
unfolding has_code
has_code-append code [] finding = ground arith
has_code-append code (f ∷ findings) finding = ground (arith, has_code-append code findings finding)

HasDistinct-append :
    (findings : List SpecFinding) (finding : SpecFinding)
    → HasDistinct findings
    → has_code finding.code findings ≡ false
    → HasDistinct (findings ++ finding ∷ [])
unfolding has_code
HasDistinct-append [] finding d fresh = (refl, tt)
HasDistinct-append (f ∷ findings) finding (old, d) fresh = (
  ground (arith, has_code-append f.code findings finding),
  HasDistinct-append findings finding d (ground arith),
)

add_finding-IsTidy :
    (findings : List SpecFinding) (finding : SpecFinding)
    → IsTidy findings
    → IsTidy (add_finding findings finding)
unfolding add_finding
add_finding-IsTidy findings finding (short, distinct) =
    elim (Bool-cases (leb 64 (length findings) || has_code finding.code findings)) [
      | inl skipped ↦ rw (skipped, add_finding) (short, distinct)
      | inr fresh ↦
          rw (fresh, add_finding)
            (
              rw (length-append findings (finding ∷ [])) (ground arith),
              HasDistinct-append findings finding distinct (ground arith),
            )
    ]

pub with_finding-IsTidy :
    (r : SpecReviewResult) (finding : SpecFinding)
    → IsTidy r.findings
    → IsTidy (with_finding r finding).findings
unfolding with_finding
with_finding-IsTidy r finding tidy = add_finding-IsTidy r.findings finding tidy

module _ (tools : UrlTools) (target : Url) where
  compare_resource-IsTidy :
      (r : SpecReviewResult) (resource : Url)
      → IsTidy r.findings
      → IsTidy (compare_resource tools target r resource).findings
  unfolding compare_resource
  compare_resource-IsTidy r resource tidy = grind (arith, with_finding-IsTidy)

  analyze_resource-IsTidy :
      (r : SpecReviewResult) (advertised : Text)
      → IsTidy r.findings
      → IsTidy (analyze_resource tools target r advertised).findings
  unfolding analyze_resource
  analyze_resource-IsTidy r advertised tidy =
      grind (arith, with_finding-IsTidy, compare_resource-IsTidy)

described_bazaar-IsTidy :
    (r : SpecReviewResult) (bazaar : Object) (method : Text)
    → IsTidy r.findings
    → IsTidy (described_bazaar r bazaar method).findings
unfolding described_bazaar
described_bazaar-IsTidy r bazaar method tidy = grind (arith, with_finding-IsTidy)

analyze_bazaar-IsTidy :
    (r : SpecReviewResult) (bazaar : Object) (method : Text)
    → IsTidy r.findings
    → IsTidy (analyze_bazaar r bazaar method).findings
unfolding analyze_bazaar
analyze_bazaar-IsTidy r none method tidy = with_finding-IsTidy _ _ tidy
analyze_bazaar-IsTidy r (some fs) method tidy = described_bazaar-IsTidy r (some fs) method tidy

with_challenge-IsTidy :
    (tools : UrlTools) (target : Url) (r : SpecReviewResult) (challenge : Option PaymentChallenge)
    (method : Text)
    → IsTidy r.findings
    → IsTidy (with_challenge tools target r challenge method).findings
unfolding with_challenge analyze_challenge
with_challenge-IsTidy tools target r none method tidy = with_finding-IsTidy _ _ tidy
with_challenge-IsTidy tools target r (some challenge) method tidy =
    analyze_bazaar-IsTidy (analyze_resource tools target r (trim_space challenge.resource_url)) _
      method (analyze_resource-IsTidy tools target r _ tidy)

-- A review whose findings are at most 64 and have distinct codes keeps both through the comparison with
-- the challenge.
pub finalize-IsTidy :
    (tools : UrlTools) (r : SpecReviewResult) (target : Url) (challenge : Option PaymentChallenge)
    (method : Text)
    → IsTidy r.findings
    → IsTidy (finalize tools r target challenge method).1.findings
unfolding finalize
finalize-IsTidy tools r target challenge method tidy =
    with_challenge-IsTidy tools target r challenge method tidy
