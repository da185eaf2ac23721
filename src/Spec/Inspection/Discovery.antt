-- ===== src/Spec/Inspection/Discovery.antt =====
-- What `inspectSpecifications` (internal/canary/specsmith.go) asks of the outside.
use canary.Base.{Text, lit, Bool, List, [], ◌∷◌, All}
use canary.Effect.{
  Url, Event, History, resolved, dialed, sent, asked_address, signed, evaluated, saved,
}
use canary.Target.{TargetPolicy}
use canary.Auditor.{Outside, Auditor}
use canary.Auditor.Flow.Permits.{IsQuiet, QuietInspector}
use canary.Spec.Documents.{SpecDecoders, document_url, fetch_spec_document}
use canary.Spec.Documents.Fetching.{
  IsDiscovery, Discovers, Discovers-trans, fetch_spec_document-Discovers,
}
use canary.Spec.Inspection.{inspect_specifications, spec_inspector}
use canary.Auditor.Flow.Saves.{saves_of, SavesNothing}
use canary.Base.{◌≡◌, ◌++◌, refl, ap, ◌∙◌}

IsDiscovery-IsQuiet :
    (policy : TargetPolicy) (es : List Event) → All (IsDiscovery policy) es → All IsQuiet es
IsDiscovery-IsQuiet policy [] a = tt
IsDiscovery-IsQuiet policy (resolved host ∷ es) (p, a) = (tt, IsDiscovery-IsQuiet policy es a)
IsDiscovery-IsQuiet policy (dialed ip port ∷ es) (p, a) = absurd p
IsDiscovery-IsQuiet policy (sent outgoing ∷ es) ((allowed, method, body, type, payment), a) =
    (payment, IsDiscovery-IsQuiet policy es a)
IsDiscovery-IsQuiet policy (asked_address ∷ es) (p, a) = absurd p
IsDiscovery-IsQuiet policy (signed payer message ∷ es) (p, a) = absurd p
IsDiscovery-IsQuiet policy (evaluated e i ∷ es) (p, a) = absurd p
IsDiscovery-IsQuiet policy (saved r ∷ es) (p, a) = absurd p

-- A review asks the outside for nothing but the addresses of hosts and at most three GET requests, each
-- for a URL that passes the tests of the policy, with no body and no payment header.
pub inspect_specifications-Discovers :
    (out : Outside) (auditor : Auditor) (d : SpecDecoders) (target : Url) (method body : Text)
    (repairs : Bool) (h : History)
    → Discovers auditor.target 3 h
        (inspect_specifications out auditor d target method body repairs h).1
unfolding inspect_specifications
inspect_specifications-Discovers out auditor d target method body repairs h =
    let fetch = λ (path kind : Text) (h : History).
      fetch_spec_document-Discovers out auditor (document_url target path) kind h in
    let first = fetch (lit "/openapi.json") (lit "openapi") h in
    let second =
      fetch (lit "/.well-known/agent-registration.json") (lit "agent_registration")
        (fetch_spec_document out auditor (document_url target (lit "/openapi.json")) (lit "openapi")
          h).1 in
    Discovers-trans auditor.target (Discovers-trans auditor.target first second)
      (fetch (lit "/skill.md") (lit "skill") _)

-- So the program's own review is quiet, as the theorems about payments assume.
pub spec_inspector-QuietInspector :
    (out : Outside) (auditor : Auditor) (d : SpecDecoders)
    → QuietInspector (spec_inspector out auditor d)
spec_inspector-QuietInspector out auditor d = record {
  events = λ target method body repairs h.
      let found = inspect_specifications-Discovers out auditor d target method body repairs h in
      (found.events, found.added, IsDiscovery-IsQuiet auditor.target found.events found.all);
}

IsDiscovery-saves :
    (policy : TargetPolicy) (es : List Event) (h : History)
    → All (IsDiscovery policy) es
    → saves_of (es ++ h) ≡ saves_of h
IsDiscovery-saves policy [] h a = refl
IsDiscovery-saves policy (resolved host ∷ es) h (p, a) = IsDiscovery-saves policy es h a
IsDiscovery-saves policy (dialed ip port ∷ es) h (p, a) = absurd p
IsDiscovery-saves policy (sent outgoing ∷ es) h (p, a) = IsDiscovery-saves policy es h a
IsDiscovery-saves policy (asked_address ∷ es) h (p, a) = absurd p
IsDiscovery-saves policy (signed payer message ∷ es) h (p, a) = absurd p
IsDiscovery-saves policy (evaluated e i ∷ es) h (p, a) = absurd p
IsDiscovery-saves policy (saved r ∷ es) h (p, a) = absurd p

-- It saves no report either.
pub spec_inspector-SavesNothing :
    (out : Outside) (auditor : Auditor) (d : SpecDecoders)
    → SavesNothing (spec_inspector out auditor d)
spec_inspector-SavesNothing out auditor d target method body repairs h =
    let found = inspect_specifications-Discovers out auditor d target method body repairs h in
    ap saves_of found.added ∙ IsDiscovery-saves auditor.target found.events h found.all
