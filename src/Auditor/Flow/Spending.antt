-- ===== src/Auditor/Flow/Spending.antt =====
-- What the stages of `Audit` (internal/canary/auditor.go) sign and pay.
use canary.Base.{
  nat_eq, ◌==◌, not, Text, Result, ok, err, Bool-cases, ◌≡◌, inl, inr, refl, sym, subst, arith,
  true, List, [], ◌∷◌, ◌++◌, All,
}
use canary.Report.{AuditRequest, AuditReport}
use canary.Effect.{
  Url, Event, History, resolved, dialed, sent, asked_address, signed, evaluated, saved,
}
use canary.Payment.{PaymentRequirement, PaymentChallenge}
use canary.Payment.Authorize.{PaymentAuthorization}
use canary.Auditor.{Outside, Inspector, Auditor}
use canary.Auditor.Requests.{Delivery}
use canary.Auditor.Completion.{Job}
use canary.Auditor.Paying.{after_payment, paid_answer, pay, authorized_answer, spend}
use canary.Auditor.Flow.{
  selection, after_challenge, unpriced, parsed_answer, after_probe, probed_answer, run_job,
  start_inspection, inspected, identified, validated, audit,
}
use canary.Auditor.Flow.Permits.{
  IsQuiet, QuietInspector, Allowed, if-Allowed, complete-Allowed, evaluate_outcome-Allowed,
  send-Allowed, authorize-Allowed, validate_request-Allowed,
}
use canary.Payment.Select.Chosen.{IsChosen, select_payment-IsChosen}
use canary.Auditor.Flow.Offered.{IsProbed, IsChallenged, IsOffered, send-IsProbed}

module _ (request : AuditRequest) (out : Outside) (auditor : Auditor) where
  module _ (inspector : Inspector) where
    after_payment-Allowed :
        (report : AuditReport) (job : Job out inspector auditor) (challenge : PaymentChallenge)
        (paid : Delivery) (h : History)
        → Allowed request out auditor h
        → Allowed request out auditor
            (after_payment out inspector auditor report job challenge paid h).1
    unfolding after_payment
    after_payment-Allowed report job challenge paid h a =
        complete-Allowed request out auditor inspector _ job _ _
          (evaluate_outcome-Allowed request out auditor inspector _ job.request _ _ _ h a)

    paid_answer-Allowed :
        (report : AuditReport) (job : Job out inspector auditor) (challenge : PaymentChallenge)
        (answer : Result Delivery × History)
        → Allowed request out auditor answer.1
        → Allowed request out auditor
            (paid_answer out inspector auditor report job challenge answer).1
    unfolding paid_answer
    paid_answer-Allowed report job challenge (ok paid, h) a =
        after_payment-Allowed report job challenge paid h a
    paid_answer-Allowed report job challenge (err e, h) a =
        complete-Allowed request out auditor inspector _ job _ h a

    pay-Allowed :
        (report : AuditReport) (job : Job out inspector auditor) (challenge : PaymentChallenge)
        (header : Text) (authorization : PaymentAuthorization) (h : History)
        → request.pay ≡ true
        → Allowed request out auditor h
        → Allowed request out auditor
            (pay out inspector auditor report job challenge header authorization h).1
    unfolding pay
    pay-Allowed report job challenge header authorization h asked a =
        paid_answer-Allowed _ job challenge _ (
          send-Allowed request out auditor inspector job.url job.method job.request header
            authorization.header h (inr asked) a)

    authorized_answer-Allowed :
        (report : AuditReport) (job : Job out inspector auditor) (challenge : PaymentChallenge)
        (header : Text) (answer : Result PaymentAuthorization × History)
        → request.pay ≡ true
        → Allowed request out auditor answer.1
        → Allowed request out auditor
            (authorized_answer out inspector auditor report job challenge header answer).1
    unfolding authorized_answer
    authorized_answer-Allowed report job challenge header (ok authorization, h) asked a =
        pay-Allowed report job challenge header authorization h asked a
    authorized_answer-Allowed report job challenge header (err e, h) asked a =
        complete-Allowed request out auditor inspector _ job _ h a

    spend-Allowed :
        (report : AuditReport) (job : Job out inspector auditor) (challenge : PaymentChallenge)
        (header : Text) (selected : PaymentRequirement) (h : History)
        → request.pay ≡ true
        → IsOffered out auditor request h selected
        → Allowed request out auditor h
        → Allowed request out auditor
            (spend out inspector auditor report job challenge header selected h).1
    unfolding spend
    spend-Allowed report job challenge header selected h asked offered a =
        authorized_answer-Allowed _ job challenge header _ asked (
          authorize-Allowed request out auditor inspector selected challenge.extensions h asked
            offered a)

    selection-Allowed :
        (report : AuditReport) (job : Job out inspector auditor) (challenge : PaymentChallenge)
        (header : Text) (h : History) (choice : Result PaymentRequirement)
        → request.pay ≡ true
        → ((s : PaymentRequirement) → choice ≡ ok s → IsOffered out auditor request h s)
        → Allowed request out auditor h
        → Allowed request out auditor
            (selection out inspector auditor report job challenge header h choice).1
    unfolding selection
    selection-Allowed report job challenge header h (ok s) asked offered a =
        spend-Allowed report job challenge header s h asked (offered s refl) a
    selection-Allowed report job challenge header h (err e) asked offered a =
        complete-Allowed request out auditor inspector _ job _ h a

    after_challenge-Allowed :
        (report : AuditReport) (job : Job out inspector auditor) (challenge : PaymentChallenge)
        (transport header : Text) (h : History)
        → job.request ≡ request
        → IsChallenged out auditor h challenge
        → Allowed request out auditor h
        → Allowed request out auditor
            (after_challenge out inspector auditor report job challenge transport header h).1
    unfolding after_challenge
    after_challenge-Allowed report job challenge transport header h same challenged a =
        if-Allowed request out auditor (not job.request.pay) _ _
          (λ free. complete-Allowed request out auditor inspector _ job _ h a)
          (λ asked.
            selection-Allowed _ job challenge header h _ (ground arith)
              (λ s chosen. record {
                challenge = challenge;
                challenged = challenged;
                chosen =
                    subst
                      (λ (q : AuditRequest).
                        IsChosen challenge.accepts q auditor.authorizer.policy s)
                      same
                      (select_payment-IsChosen challenge.accepts job.request
                        auditor.authorizer.policy s chosen);
              })
              a)

    unpriced-Allowed :
        (report : AuditReport) (job : Job out inspector auditor) (probed : Delivery) (h : History)
        → Allowed request out auditor h
        → Allowed request out auditor (unpriced out inspector auditor report job probed h).1
    unfolding unpriced
    unpriced-Allowed report job probed h a =
        complete-Allowed request out auditor inspector _ job _ _
          (evaluate_outcome-Allowed request out auditor inspector _ job.request _ _ _ h a)

    parsed-Allowed :
        (report : AuditReport) (job : Job out inspector auditor) (h : History)
        (parsed : Result (PaymentChallenge × Text × Text))
        → job.request ≡ request
        → ((challenge : PaymentChallenge) (transport header : Text)
            → parsed ≡ ok (challenge, transport, header)
            → IsChallenged out auditor h challenge)
        → Allowed request out auditor h
        → Allowed request out auditor (parsed_answer out inspector auditor report job h parsed).1
    unfolding parsed_answer
    parsed-Allowed report job h (ok (challenge, transport, header)) same challenged a =
        after_challenge-Allowed report job challenge transport header h same
          (challenged challenge transport header refl) a
    parsed-Allowed report job h (err e) same challenged a =
        complete-Allowed request out auditor inspector _ job _ h a

    after_probe-Allowed :
        (report : AuditReport) (job : Job out inspector auditor) (probed : Delivery) (h : History)
        → job.request ≡ request
        → IsProbed out auditor h probed
        → Allowed request out auditor h
        → Allowed request out auditor (after_probe out inspector auditor report job probed h).1
    unfolding after_probe
    after_probe-Allowed report job probed h same is_probed a =
        if-Allowed request out auditor (not (probed.response.status_code == 402)) _ _
          (λ _. unpriced-Allowed _ job probed h a)
          (λ priced.
            parsed-Allowed _ job h _ same
              (λ challenge transport header parsed. record {
                probed = probed;
                is_probed = is_probed;
                priced = ground arith;
                transport = transport;
                header = header;
                parsed = parsed;
              })
              a)

    probed_answer-Allowed :
        (report : AuditReport) (job : Job out inspector auditor)
        (answer : Result Delivery × History)
        → job.request ≡ request
        → ((probed : Delivery) → answer.0 ≡ ok probed → IsProbed out auditor answer.1 probed)
        → Allowed request out auditor answer.1
        → Allowed request out auditor (probed_answer out inspector auditor report job answer).1
    unfolding probed_answer
    probed_answer-Allowed report job (ok probed, h) same is_probed a =
        after_probe-Allowed report job probed h same (is_probed probed refl) a
    probed_answer-Allowed report job (err e, h) same is_probed a =
        complete-Allowed request out auditor inspector _ job _ h a

    run_job-Allowed :
        (report : AuditReport) (job : Job out inspector auditor) (h : History)
        → job.request ≡ request
        → Allowed request out auditor h
        → Allowed request out auditor (run_job out inspector auditor report job h).1
    unfolding run_job
    run_job-Allowed report job h same a =
        probed_answer-Allowed report job _ same
          (send-IsProbed out auditor job.url job.method job.request h)
          (send-Allowed request out auditor inspector job.url job.method job.request [] [] h
            (inl refl) a)

    IsQuiet-Allowed :
        (es : List Event) (h : History)
        → All IsQuiet es
        → Allowed request out auditor h
        → Allowed request out auditor (es ++ h)
    IsQuiet-Allowed [] h q a = a
    IsQuiet-Allowed (resolved host ∷ es) h (q, qs) a = (tt, IsQuiet-Allowed es h qs a)
    IsQuiet-Allowed (dialed ip port ∷ es) h (q, qs) a = (tt, IsQuiet-Allowed es h qs a)
    IsQuiet-Allowed (sent outgoing ∷ es) h (q, qs) a = (inl q, IsQuiet-Allowed es h qs a)
    IsQuiet-Allowed (asked_address ∷ es) h (q, qs) a = (tt, IsQuiet-Allowed es h qs a)
    IsQuiet-Allowed (signed payer message ∷ es) h (q, qs) a = absurd q
    IsQuiet-Allowed (evaluated e i ∷ es) h (q, qs) a = (tt, IsQuiet-Allowed es h qs a)
    IsQuiet-Allowed (saved r ∷ es) h (q, qs) a = (tt, IsQuiet-Allowed es h qs a)

    start_inspection-Allowed :
        (url : Url) (method : Text) (h : History)
        → QuietInspector inspector
        → Allowed request out auditor h
        → Allowed request out auditor
            (start_inspection out inspector auditor request url method h).1
    unfolding start_inspection
    start_inspection-Allowed url method h quiet a = elim (Bool-cases request.spec_review) [
      | inr off ↦ ground arith
      | inl on ↦
          let (es, same, all) = quiet.events url method request.body request.generate_repairs h in
          let a' : Allowed request out auditor (es ++ h) = IsQuiet-Allowed es h all a in
          ground (arith, subst (Allowed request out auditor) (sym same) a')
    ]

    identified-Allowed :
        (url : Url) (method : Text) (h : History) (bytes : Result Text)
        → QuietInspector inspector
        → Allowed request out auditor h
        → Allowed request out auditor
            (identified out inspector auditor request url method h bytes).1
    unfolding identified inspected
    identified-Allowed url method h (err e) quiet a = a
    identified-Allowed url method h (ok bytes) quiet a =
        run_job-Allowed _ _ _ refl (start_inspection-Allowed url method h quiet a)

    validated-Allowed :
        (answer : Result (Url × Text) × History)
        → QuietInspector inspector
        → Allowed request out auditor answer.1
        → Allowed request out auditor (validated out inspector auditor request answer).1
    unfolding validated
    validated-Allowed (err e, h) quiet a = a
    validated-Allowed (ok (url, method), h) quiet a =
        identified-Allowed url method h (out.report_bytes h) quiet a

-- Whatever the outside answers, an audit signs only what may be signed for its request: nothing unless
-- `pay` is set, and then, right after the probe, a transfer from the address of the wallet to the payee of
-- an option of the challenge that answered the probe, of its exact amount, in its asset, on the chain of
-- its network, and for the time to live of the operator's policy. The amount is within both caps, network
-- and asset are those that the request names, where it names any, and the operator allows them. Without
-- `pay` no request carries a payment header. This holds of all events of the audit, if the specification
-- review is quiet.
pub audit-Allowed :
    (out : Outside) (inspector : Inspector) (auditor : Auditor) (request : AuditRequest)
    → QuietInspector inspector
    → Allowed request out auditor (audit out inspector auditor request []).1
unfolding audit
audit-Allowed out inspector auditor request quiet =
    validated-Allowed request out auditor inspector _ quiet
      (validate_request-Allowed request out auditor inspector [] tt)
