-- ===== src/Auditor/Flow/Permits.antt =====
-- What `Audit` (internal/canary/auditor.go) may sign and pay, and the operations that it consists of.
use canary.Base.{
  nat_eq, if◌then◌else◌, ℕ, Text, Result, ok, err, Result-cases, ◌≡◌, ◌⊎◌, inl, inr, refl, arith,
  Bool, true, false, Option, none, List, [], ◌∷◌, ◌++◌, All,
}
use canary.Json.{Json, Object}
use canary.Report.{AuditRequest, AuditReport}
use canary.Effect.{Url, Event, History, resolved, sent, asked_address, signed}
use canary.Payment.{PaymentRequirement, PaymentChallenge}
use canary.Payment.Authorize.{
  deadline, Transfer, typed_data, check_requirement, sign_transfer, authorize,
}
use canary.Target.{TargetPolicy, Network, validate_url, resolve_and_validate, checked_answer}
use canary.Target.Address.{Addr}
use canary.Auditor.{Outside, Inspector, Auditor}
use canary.Auditor.Checks.{Outcome}
use canary.Auditor.Requests.{validate_request, build_request, send}
use canary.Auditor.Evaluation.{evaluate_outcome}
use canary.Auditor.Completion.{Job, complete}
use canary.Payment.Authorize.Message.{Pays, typed_data-Pays}
use canary.Auditor.Flow.Offered.{IsOffered}

-- A message that may be signed for the request, behind a history: the wallet was asked for its address
-- right after the probe, and the message pays from that address an option of the challenge that answered
-- the probe, for no longer than the operator's time to live.
pub record MayBeSigned (request : AuditRequest) (out : Outside) (auditor : Auditor) (h : History)
    (payer : Text) (message : Json) : Type 0 where
  pub asked : request.pay ≡ true
  pub before : History
  pub just_asked : h ≡ asked_address ∷ before
  pub option : PaymentRequirement
  pub offered : IsOffered out auditor request before option
  pub from_wallet : out.signer.address before ≡ ok payer
  pub pays :
      Pays auditor.authorizer.policy option payer
        (deadline out.signer out.platform auditor.authorizer (asked_address ∷ before))
        message

-- What an event may be, behind the history before it.
abbrev pub IsAllowed : AuditRequest → Outside → Auditor → Event → History → Type 0
IsAllowed request out auditor (signed payer message) h =
    MayBeSigned request out auditor h payer message
IsAllowed request out auditor (sent outgoing) h = (outgoing.payment ≡ none) ⊎ (request.pay ≡ true)
IsAllowed request out auditor _ h = Unit

-- Each event of a history is allowed behind the events before it.
abbrev pub Allowed : AuditRequest → Outside → Auditor → History → Type 0
Allowed request out auditor [] = Unit
Allowed request out auditor (event ∷ h) =
    IsAllowed request out auditor event h × Allowed request out auditor h

-- A specification review only reads: it signs nothing and sends no payment header.
abbrev pub IsQuiet : Event → Type 0
IsQuiet (signed payer message) = ⊥
IsQuiet (sent outgoing) = outgoing.payment ≡ none
IsQuiet _ = Unit

pub record QuietInspector (inspector : Inspector) : Type 0 where
  pub events :
      (url : Url) (method body : Text) (repairs : Bool) (h : History)
      → (es : List Event) × ((inspector.inspect url method body repairs h).1 ≡ es ++ h)
        × All IsQuiet es

module _ (request : AuditRequest) (out : Outside) (auditor : Auditor) where
  pub if-Allowed :
      (b : Bool) (x y : Outcome × History)
      → (b ≡ true → Allowed request out auditor x.1)
      → (b ≡ false → Allowed request out auditor y.1)
      → Allowed request out auditor (if b then x else y).1
  if-Allowed true x y p q = p refl
  if-Allowed false x y p q = q refl

  checked_answer-Allowed :
      (b : Bool) (answer : Result (List Addr)) (h : History)
      → Allowed request out auditor h
      → Allowed request out auditor (checked_answer b h answer).1
  unfolding checked_answer
  checked_answer-Allowed b (err e) h a = a
  checked_answer-Allowed b (ok []) h a = a
  checked_answer-Allowed b (ok (ip ∷ ips)) h a = a

  resolve_and_validate-Allowed :
      (net : Network) (host : Text) (b : Bool) (h : History)
      → Allowed request out auditor h
      → Allowed request out auditor (resolve_and_validate net host b h).1
  unfolding resolve_and_validate
  resolve_and_validate-Allowed net host b h a =
      ground (arith, checked_answer-Allowed b (net.lookup_net_ip host h) (resolved host ∷ h))

  validate_url-Allowed :
      (net : Network) (p : TargetPolicy) (raw : Text) (h : History)
      → Allowed request out auditor h
      → Allowed request out auditor (validate_url net p raw h).1
  unfolding validate_url
  validate_url-Allowed net p raw h a = grind (arith, resolve_and_validate-Allowed)

  module _ (inspector : Inspector) where
    pub complete-Allowed :
        (report : AuditReport) (job : Job out inspector auditor)
        (challenge : Option PaymentChallenge) (h : History)
        → Allowed request out auditor h
        → Allowed request out auditor (complete out inspector auditor report job challenge h).1
    unfolding complete
    complete-Allowed report job challenge h a = ground arith

    pub evaluate_outcome-Allowed :
        (report : AuditReport) (asked : AuditRequest) (status : ℕ) (content_type body : Text)
        (h : History)
        → Allowed request out auditor h
        → Allowed request out auditor
            (evaluate_outcome auditor report asked status content_type body h).1
    unfolding evaluate_outcome
    evaluate_outcome-Allowed report asked status content_type body h a = ground arith

    pub send-Allowed :
        (url : Url) (method : Text) (asked : AuditRequest) (header value : Text) (h : History)
        → (value ≡ []) ⊎ (request.pay ≡ true)
        → Allowed request out auditor h
        → Allowed request out auditor (send out auditor url method asked (header, value) h).1
    unfolding send build_request
    send-Allowed url method asked header value h free a = ground arith

    sign_transfer-Allowed :
        (r : PaymentRequirement) (extensions : Object) (network : Text) (chain_id : ℕ)
        (t : Transfer) (h : History)
        → MayBeSigned request out auditor h t.payer (typed_data r network chain_id t)
        → Allowed request out auditor h
        → Allowed request out auditor
            (sign_transfer out.signer out.platform r extensions network chain_id t h).1
    unfolding sign_transfer
    sign_transfer-Allowed r extensions network chain_id t h may a = ground arith

    pub authorize-Allowed :
        (r : PaymentRequirement) (extensions : Object) (h : History)
        → request.pay ≡ true
        → IsOffered out auditor request h r
        → Allowed request out auditor h
        → Allowed request out auditor
            (authorize out.signer out.platform auditor.authorizer r extensions h).1
    unfolding authorize
    authorize-Allowed r extensions h asked offered allowed =
        let a = auditor.authorizer in
        elim (Result-cases (check_requirement a r)) [
          | inr (e, bad) ↦ rw (bad, authorize) allowed
          | inl ((network, chain_id), good) ↦ elim (Result-cases (out.signer.address h)) [
            | inr (e, locked) ↦ rw (good, locked, authorize) (tt, allowed)
            | inl (payer, known) ↦ elim (Result-cases (out.platform.random (asked_address ∷ h))) [
              | inr (e, dry) ↦ rw (good, known, dry, authorize) (tt, allowed)
              | inl (random, drawn) ↦
                  rw (good, known, drawn, authorize)
                    (sign_transfer-Allowed r extensions network chain_id _ (asked_address ∷ h)
                      (record {
                        asked = asked;
                        before = h;
                        just_asked = refl;
                        option = r;
                        offered = offered;
                        from_wallet = known;
                        pays = typed_data-Pays a r network chain_id _ good refl refl;
                      })
                      (tt, allowed))
            ]
          ]
        ]

    pub validate_request-Allowed :
        (h : History)
        → Allowed request out auditor h
        → Allowed request out auditor (validate_request out auditor request h).1
    unfolding validate_request
    validate_request-Allowed h a = grind (arith, validate_url-Allowed)
