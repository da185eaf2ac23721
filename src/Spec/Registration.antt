-- ===== src/Spec/Registration.antt =====
-- The other two documents of a review: `analyzeRegistration` and `analyzeSkillDocument`
-- (internal/canary/specsmith.go).
use canary.Base.{
  Text, lit, text_eq, nat_eq, is_empty, has_prefix, trim_space, equal_fold, ◌==◌, ok, err,
  if◌then◌else◌, Bool, false, not, ◌||◌, Option, none, some, List, [], ◌∷◌, ◌++◌,
}
use canary.Report.{SpecReviewResult, warning, info}
use canary.Effect.{Url}
use canary.Spec.Challenge.{UrlTools}
use canary.Spec.{finding_of, with_finding}
use canary.Spec.Analysis.{find_if}
use canary.Spec.Documents.{Fetched, Registration, SpecDecoders, set_valid}

-- `strings.TrimSuffix(path, "/")`
unfoldable pub trim_slash : Text → Text
trim_slash [] = []
trim_slash (c ∷ []) = if c == b'/' then [] else c ∷ []
trim_slash (c ∷ d ∷ s) = c ∷ trim_slash (d ∷ s)

-- The endpoint has the scheme and the host of the target, and its path is above that of the target.
unfoldable pub covers : UrlTools → Url → Text → Bool
unfolding trim_slash
covers tools target endpoint = elim (tools.parse_request_uri (trim_space endpoint)) [
  | err _ ↦ false
  | ok u ↦
      if not (u.scheme == target.scheme) || not (equal_fold u.host target.host)
      then false
      else let path = trim_slash u.path in
        is_empty path || (target.path == path || has_prefix (path ++ lit "/") target.path)
]

-- The loop over the services.
unfoldable pub is_listed : UrlTools → Url → List Text → Bool
is_listed tools target [] = false
is_listed tools target (endpoint ∷ endpoints) =
    covers tools target endpoint || is_listed tools target endpoints

-- `registration.Active != nil && !*registration.Active`
abbrev is_inactive : Option Bool → Bool
is_inactive (some active) = not active
is_inactive none = false

module _ (tools : UrlTools) (target : Url) where
  registered : Registration → SpecReviewResult → SpecReviewResult
  registered registration r =
      let r' = record r { documents = set_valid 1 r.documents } in
      find_if (is_empty registration.agent_ids)
        (finding_of (lit "agent_id_missing") info
          (lit "The registration document contains no on-chain Agent ID.")
          (lit "Add registrations after the identity is minted."))
        (find_if (not (is_listed tools target registration.endpoints))
          (finding_of (lit "service_not_registered") warning
            (lit "The target route is not covered by an endpoint in agent-registration.json.")
            (lit "Add a public service endpoint that is an origin/path prefix of the paid route."))
          (find_if (is_inactive registration.active)
            (finding_of (lit "agent_registration_inactive") warning
              (lit "The agent registration document marks the service inactive.")
              (lit "Activate the registration or remove stale service endpoints."))
            r'))

  unfoldable pub analyze_registration : SpecDecoders → Fetched → SpecReviewResult → SpecReviewResult
  unfolding registered set_valid
  analyze_registration d document r =
      if not document.report.available
      then with_finding r (
          finding_of (lit "agent_registration_missing") info
            (lit "No ERC-8004 registration document was found at the standard well-known path.")
            (lit "Publish the registration document when the service has an ERC-8004 identity."))
      else elim (d.decode_registration document.body) [
        | none ↦ with_finding r (
            finding_of (lit "agent_registration_invalid") warning
              (lit "The agent registration document is not valid JSON.")
              (lit "Publish a valid agent-registration.json document."))
        | some registration ↦ registered registration r
      ]

unfoldable pub analyze_skill_document : Fetched → SpecReviewResult → SpecReviewResult
unfolding set_valid
analyze_skill_document document r =
    if not document.report.available
    then with_finding r (
        finding_of (lit "skill_document_missing") info
          (lit "No public skill.md document was found.")
          (lit "Publish concise agent-facing usage guidance when appropriate."))
    else if document.report.response_truncated || is_empty (trim_space document.body)
    then with_finding r (
        finding_of (lit "skill_document_invalid") warning
          (lit "The public skill document is empty or exceeds the inspection limit.")
          (lit "Publish a concise text/Markdown skill document."))
    else record r { documents = set_valid 2 r.documents }
