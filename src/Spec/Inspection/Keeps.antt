-- ===== src/Spec/Inspection/Keeps.antt =====
-- What the later steps of a review (internal/canary/specsmith.go) leave as it is.
use canary.Base.{
  nat_eq, text_eq, suc, ℕ, Text, trim_space, ◌≡◌, refl, ◌∙◌, arith, Bool, true, false, Option, none,
  some, List, [], ◌∷◌,
}
use canary.Json.{Object}
use canary.Report.{SpecReviewResult, SpecRepairBundle, SpecFinding, SpecDocument}
use canary.Effect.{Url}
use canary.Payment.{PaymentChallenge}
use canary.Spec.Challenge.{
  UrlTools, compare_resource, analyze_resource, described_bazaar, bazaar_of, analyze_bazaar,
  analyze_challenge,
}
use canary.Spec.Finalize.{with_challenge, first_valid}
use canary.Spec.{with_finding}
use canary.Spec.Registration.{analyze_registration, analyze_skill_document}
use canary.Spec.Documents.{Fetched, SpecDecoders, set_valid}
use canary.Spec.Inspection.{with_repairs}

-- The operation is the same, and the first document is valid or not as before.
abbrev pub Keeps : SpecReviewResult → SpecReviewResult → Type 0
Keeps r r' = (r'.operation ≡ r.operation) × (first_valid r'.documents ≡ first_valid r.documents)

with_finding-Keeps :
    (r : SpecReviewResult) (finding : SpecFinding) → Keeps r (with_finding r finding)
unfolding with_finding
with_finding-Keeps r finding = (refl, refl)

first_valid-set_valid :
    (n : ℕ) (documents : List SpecDocument)
    → first_valid (set_valid (suc n) documents) ≡ first_valid documents
unfolding first_valid set_valid
first_valid-set_valid n [] = refl
first_valid-set_valid n (document ∷ documents) = refl

pub analyze_registration-Keeps :
    (tools : UrlTools) (target : Url) (d : SpecDecoders) (document : Fetched) (r : SpecReviewResult)
    → Keeps r (analyze_registration tools target d document r)
unfolding analyze_registration with_finding
analyze_registration-Keeps tools target d document r =
    (ground arith, ground (arith, first_valid-set_valid 0 r.documents))

pub analyze_skill_document-Keeps :
    (document : Fetched) (r : SpecReviewResult) → Keeps r (analyze_skill_document document r)
unfolding analyze_skill_document with_finding
analyze_skill_document-Keeps document r =
    (ground arith, ground (arith, first_valid-set_valid 1 r.documents))

compare_resource-Keeps :
    (tools : UrlTools) (target : Url) (r : SpecReviewResult) (resource : Url)
    → Keeps r (compare_resource tools target r resource)
unfolding compare_resource with_finding
compare_resource-Keeps tools target r resource = (ground arith, ground arith)

analyze_resource-Keeps :
    (tools : UrlTools) (target : Url) (r : SpecReviewResult) (advertised : Text)
    → Keeps r (analyze_resource tools target r advertised)
unfolding analyze_resource with_finding
analyze_resource-Keeps tools target r advertised =
    (grind (arith, compare_resource-Keeps), grind (arith, compare_resource-Keeps))

analyze_bazaar-Keeps :
    (r : SpecReviewResult) (bazaar : Object) (method : Text)
    → Keeps r (analyze_bazaar r bazaar method)
unfolding analyze_bazaar described_bazaar with_finding
analyze_bazaar-Keeps r none method = (refl, refl)
analyze_bazaar-Keeps r (some fs) method = (ground arith, ground arith)

pub with_challenge-Keeps :
    (tools : UrlTools) (target : Url) (r : SpecReviewResult) (challenge : Option PaymentChallenge)
    (method : Text)
    → Keeps r (with_challenge tools target r challenge method)
unfolding with_challenge analyze_challenge
with_challenge-Keeps tools target r none method = with_finding-Keeps r _
with_challenge-Keeps tools target r (some challenge) method =
    let r' = analyze_resource tools target r (trim_space challenge.resource_url) in
    let (a, b) = analyze_resource-Keeps tools target r (trim_space challenge.resource_url) in
    let (c, e) = analyze_bazaar-Keeps r' (bazaar_of challenge) method in (c ∙ a, e ∙ b)

pub with_repairs-Keeps :
    (repairs : Bool) (bundle : SpecRepairBundle) (r : SpecReviewResult)
    → Keeps r (with_repairs repairs bundle r)
with_repairs-Keeps true bundle r = (refl, refl)
with_repairs-Keeps false bundle r = (refl, refl)
