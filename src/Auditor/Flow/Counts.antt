-- ===== src/Auditor/Flow/Counts.antt =====
-- The signatures and the payments of a history, and how the operations of `Audit`
-- (internal/canary/auditor.go) change them.
use canary.Base.{
  nat_eq, if◌then◌else◌, ℕ, suc, ◌+◌, ◌≤◌, Text, Result, ok, err, Bool-cases, ◌≡◌, inl, inr, refl,
  sym, subst, arith, Bool, true, false, Option, none, some, List, [], ◌∷◌, ◌++◌, All,
}
use canary.Json.{Object}
use canary.Report.{AuditRequest, AuditReport}
use canary.Effect.{
  Url, Event, History, resolved, dialed, sent, asked_address, signed, evaluated, saved,
}
use canary.Payment.{PaymentRequirement, PaymentChallenge}
use canary.Payment.Authorize.{PaymentAuthorizer, Transfer, sign_transfer, authorize}
use canary.Target.{TargetPolicy, Network, validate_url, resolve_and_validate, checked_answer}
use canary.Target.Address.{Addr}
use canary.Auditor.{Outside, Inspector, Auditor}
use canary.Auditor.Checks.{Outcome}
use canary.Auditor.Requests.{validate_request, build_request, send}
use canary.Auditor.Evaluation.{evaluate_outcome}
use canary.Auditor.Completion.{Job, complete}
use canary.Auditor.Flow.{start_inspection}
use canary.Auditor.Flow.Permits.{IsQuiet, QuietInspector}

-- The messages that were signed.
abbrev pub signature_count : History → ℕ
signature_count [] = 0
signature_count (signed payer message ∷ h) = suc (signature_count h)
signature_count (_ ∷ h) = signature_count h

abbrev header_count : Option (Text × Text) → ℕ
header_count none = 0
header_count (some header) = 1

-- The requests that carried a payment header.
abbrev pub payment_count : History → ℕ
payment_count [] = 0
payment_count (sent outgoing ∷ h) = header_count outgoing.payment + payment_count h
payment_count (_ ∷ h) = payment_count h

abbrev pub Within : ℕ → ℕ → History → Type 0
Within s p h = (signature_count h ≤ s) × (payment_count h ≤ p)

module _ (s p : ℕ) where
  pub if-Within :
      (b : Bool) (x y : Outcome × History)
      → (b ≡ true → Within s p x.1)
      → (b ≡ false → Within s p y.1)
      → Within s p (if b then x else y).1
  if-Within true x y f g = f refl
  if-Within false x y f g = g refl

  checked_answer-Within :
      (b : Bool) (answer : Result (List Addr)) (h : History)
      → Within s p h
      → Within s p (checked_answer b h answer).1
  unfolding checked_answer
  checked_answer-Within b (err e) h w = w
  checked_answer-Within b (ok []) h w = w
  checked_answer-Within b (ok (ip ∷ ips)) h w = w

  resolve_and_validate-Within :
      (net : Network) (host : Text) (b : Bool) (h : History)
      → Within s p h
      → Within s p (resolve_and_validate net host b h).1
  unfolding resolve_and_validate
  resolve_and_validate-Within net host b h w =
      ground (arith, checked_answer-Within b (net.lookup_net_ip host h) (resolved host ∷ h))

  validate_url-Within :
      (net : Network) (policy : TargetPolicy) (raw : Text) (h : History)
      → Within s p h
      → Within s p (validate_url net policy raw h).1
  unfolding validate_url
  validate_url-Within net policy raw h w = grind (arith, resolve_and_validate-Within)

  IsQuiet-Within :
      (es : List Event) (h : History) → All IsQuiet es → Within s p h → Within s p (es ++ h)
  IsQuiet-Within [] h q w = w
  IsQuiet-Within (resolved host ∷ es) h (q, qs) w = IsQuiet-Within es h qs w
  IsQuiet-Within (dialed ip port ∷ es) h (q, qs) w = IsQuiet-Within es h qs w
  IsQuiet-Within (sent outgoing ∷ es) h (q, qs) w =
      let (signatures, payments) = IsQuiet-Within es h qs w in
      (signatures, rw q (omega (arith, payments)))
  IsQuiet-Within (asked_address ∷ es) h (q, qs) w = IsQuiet-Within es h qs w
  IsQuiet-Within (signed payer message ∷ es) h (q, qs) w = absurd q
  IsQuiet-Within (evaluated e i ∷ es) h (q, qs) w = IsQuiet-Within es h qs w
  IsQuiet-Within (saved r ∷ es) h (q, qs) w = IsQuiet-Within es h qs w

  module _ (out : Outside) (inspector : Inspector) (auditor : Auditor) where
    pub complete-Within :
        (report : AuditReport) (job : Job out inspector auditor)
        (challenge : Option PaymentChallenge) (h : History)
        → Within s p h
        → Within s p (complete out inspector auditor report job challenge h).1
    unfolding complete
    complete-Within report job challenge h w = ground arith

    pub evaluate_outcome-Within :
        (report : AuditReport) (asked : AuditRequest) (status : ℕ) (content_type body : Text)
        (h : History)
        → Within s p h
        → Within s p (evaluate_outcome auditor report asked status content_type body h).1
    unfolding evaluate_outcome
    evaluate_outcome-Within report asked status content_type body h w = ground arith

    pub validate_request-Within :
        (request : AuditRequest) (h : History)
        → Within s p h
        → Within s p (validate_request out auditor request h).1
    unfolding validate_request
    validate_request-Within request h w = grind (arith, validate_url-Within)

    pub probe-Within :
        (url : Url) (method : Text) (asked : AuditRequest) (h : History)
        → Within s p h
        → Within s p (send out auditor url method asked ([], []) h).1
    unfolding send build_request
    probe-Within url method asked h w = ground arith

    pub paid-Within :
        (url : Url) (method : Text) (asked : AuditRequest) (header value : Text) (h : History)
        → Within s p h
        → Within s (suc p) (send out auditor url method asked (header, value) h).1
    unfolding send build_request
    paid-Within url method asked header value h w = ground arith

    sign_transfer-Within :
        (r : PaymentRequirement) (extensions : Object) (network : Text) (chain_id : ℕ)
        (t : Transfer) (h : History)
        → Within s p h
        → Within
            (suc s)
            p
            (sign_transfer out.signer out.platform r extensions network chain_id t h).1
    unfolding sign_transfer
    sign_transfer-Within r extensions network chain_id t h w = ground arith

    pub authorize-Within :
        (a : PaymentAuthorizer) (r : PaymentRequirement) (extensions : Object) (h : History)
        → Within s p h
        → Within (suc s) p (authorize out.signer out.platform a r extensions h).1
    unfolding authorize
    authorize-Within a r extensions h w = grind (arith, sign_transfer-Within)

    pub start_inspection-Within :
        (request : AuditRequest) (url : Url) (method : Text) (h : History)
        → QuietInspector inspector
        → Within s p h
        → Within s p (start_inspection out inspector auditor request url method h).1
    unfolding start_inspection
    start_inspection-Within request url method h quiet w = elim (Bool-cases request.spec_review) [
      | inr off ↦ ground arith
      | inl on ↦
          let (es, same, all) = quiet.events url method request.body request.generate_repairs h in
          let w' : Within s p (es ++ h) = IsQuiet-Within es h all w in
          ground (arith, subst (Within s p) (sym same) w')
    ]
