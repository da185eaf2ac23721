-- ===== src/Auditor/Flow/Reports.antt =====
-- What the stages of `Audit` (internal/canary/auditor.go) report.
use canary.Base.{nat_eq, ◌==◌, not, Text, Result, ok, err, ◌≡◌, refl, arith, true}
use canary.Report.{AuditRequest, AuditReport, PaymentResult}
use canary.Effect.{Url, History}
use canary.Payment.{PaymentRequirement, PaymentChallenge}
use canary.Payment.Authorize.{PaymentAuthorization}
use canary.Auditor.{Outside, Inspector, Auditor}
use canary.Auditor.Scoring.Bounds.{WithinWeight}
use canary.Auditor.Requests.{Delivery}
use canary.Auditor.Evaluation.Points.{IsScoring}
use canary.Auditor.Completion.{Job}
use canary.Auditor.Paying.{
  delivery_check, with_payment_error, budgeted, paid_payment, after_payment, paid_answer, pay,
  authorized_answer, spend,
}
use canary.Auditor.Flow.{
  challenged, reached, first_report, selection, after_challenge, unpriced, parsed_answer,
  after_probe, probed_answer, run_job, inspected, identified, validated, audit,
}
use canary.Auditor.Flow.Open.{
  IsOpen, Reports, FairInspector, IsOpen-add_checks, if-Reports, complete-Reports,
  evaluate_outcome-IsOpen,
}

module _ (request : AuditRequest) where
  module _ (out : Outside) (inspector : Inspector) (auditor : Auditor)
      (fair : FairInspector inspector) (scoring : IsScoring auditor.evaluator) where
    delivery_check-WithinWeight :
        (payment : PaymentResult) → WithinWeight (delivery_check out inspector auditor payment)
    unfolding delivery_check
    delivery_check-WithinWeight payment = ground arith

    after_payment-Reports :
        (report : AuditReport) (job : Job out inspector auditor) (challenge : PaymentChallenge)
        (paid : Delivery) (h : History)
        → request.pay ≡ true
        → report.payment.attempted ≡ true
        → IsOpen request report
        → Reports request (after_payment out inspector auditor report job challenge paid h).0
    unfolding after_payment
    after_payment-Reports report job challenge paid h asked attempted o =
        complete-Reports request out inspector auditor fair scoring _ job _ _ (
          evaluate_outcome-IsOpen request out inspector auditor fair scoring _ job.request _ _ _ h (
            IsOpen-add_checks request _ _
              (
                delivery_check-WithinWeight
                    (paid_payment out inspector auditor report.payment paid),
                tt,
              )
              (record {
                points = o.points;
                score = o.score;
                coverage = o.coverage;
                paid = λ v. (asked, attempted);
              })))

    undelivered :
        (report : AuditReport) (e evidence : Text)
        → IsOpen request report
        → IsOpen request (with_payment_error out inspector auditor report e evidence)
    undelivered report e evidence o =
        IsOpen-add_checks request _ _ (omega arith)
          (record { points = o.points; score = o.score; coverage = o.coverage; paid = o.paid })

    paid_answer-Reports :
        (report : AuditReport) (job : Job out inspector auditor) (challenge : PaymentChallenge)
        (answer : Result Delivery × History)
        → request.pay ≡ true
        → report.payment.attempted ≡ true
        → IsOpen request report
        → Reports request (paid_answer out inspector auditor report job challenge answer).0
    unfolding paid_answer
    paid_answer-Reports report job challenge (ok paid, h) asked attempted o =
        after_payment-Reports report job challenge paid h asked attempted o
    paid_answer-Reports report job challenge (err e, h) asked attempted o =
        complete-Reports request out inspector auditor fair scoring _ job _ h
          (undelivered report e _ o)

    authorized_answer-Reports :
        (report : AuditReport) (job : Job out inspector auditor) (challenge : PaymentChallenge)
        (header : Text) (answer : Result PaymentAuthorization × History)
        → request.pay ≡ true
        → IsOpen request report
        → Reports request
            (authorized_answer out inspector auditor report job challenge header answer).0
    unfolding authorized_answer pay
    authorized_answer-Reports report job challenge header (ok authorization, h) asked o =
        paid_answer-Reports _ job challenge _ asked refl (record {
          points = o.points;
          score = o.score;
          coverage = o.coverage;
          paid = λ v. (asked, refl);
        })
    authorized_answer-Reports report job challenge header (err e, h) asked o =
        complete-Reports request out inspector auditor fair scoring _ job _ h
          (undelivered report e _ o)

    selection-Reports :
        (report : AuditReport) (job : Job out inspector auditor) (challenge : PaymentChallenge)
        (header : Text) (h : History) (choice : Result PaymentRequirement)
        → request.pay ≡ true
        → IsOpen request report
        → Reports request (selection out inspector auditor report job challenge header h choice).0
    unfolding selection spend budgeted
    selection-Reports report job challenge header h (ok s) asked o =
        authorized_answer-Reports _ job challenge header _ asked (
          IsOpen-add_checks request _ _ (omega arith)
            (record { points = o.points; score = o.score; coverage = o.coverage; paid = o.paid }))
    selection-Reports report job challenge header h (err e) asked o =
        complete-Reports request out inspector auditor fair scoring _ job _ h
          (IsOpen-add_checks request _ _ (omega arith) o)

    after_challenge-Reports :
        (report : AuditReport) (job : Job out inspector auditor) (challenge : PaymentChallenge)
        (transport header : Text) (h : History)
        → job.request ≡ request
        → IsOpen request report
        → Reports request
            (after_challenge out inspector auditor report job challenge transport header h).0
    unfolding after_challenge challenged
    after_challenge-Reports report job challenge transport header h same o =
        let o' : IsOpen request (challenged out inspector auditor report challenge transport) =
          IsOpen-add_checks request _ _ (omega arith)
            (record { points = o.points; score = o.score; coverage = o.coverage; paid = o.paid }) in
        if-Reports request (not job.request.pay) _ _
          (λ free.
            complete-Reports request out inspector auditor fair scoring _ job _ h
              (IsOpen-add_checks request _ _ (omega arith) o'))
          (λ asked. selection-Reports _ job challenge header h _ (ground arith) o')

    parsed_answer-Reports :
        (report : AuditReport) (job : Job out inspector auditor) (h : History)
        (parsed : Result (PaymentChallenge × Text × Text))
        → job.request ≡ request
        → IsOpen request report
        → Reports request (parsed_answer out inspector auditor report job h parsed).0
    unfolding parsed_answer
    parsed_answer-Reports report job h (ok (challenge, transport, header)) same o =
        after_challenge-Reports report job challenge transport header h same o
    parsed_answer-Reports report job h (err e) same o =
        complete-Reports request out inspector auditor fair scoring _ job _ h
          (IsOpen-add_checks request _ _ (omega arith) o)

    unpriced-Reports :
        (report : AuditReport) (job : Job out inspector auditor) (probed : Delivery) (h : History)
        → IsOpen request report
        → Reports request (unpriced out inspector auditor report job probed h).0
    unfolding unpriced
    unpriced-Reports report job probed h o =
        complete-Reports request out inspector auditor fair scoring _ job _ _ (
          evaluate_outcome-IsOpen request out inspector auditor fair scoring _ job.request _ _ _ h
            (IsOpen-add_checks request _ _ (omega arith) o))

    after_probe-Reports :
        (report : AuditReport) (job : Job out inspector auditor) (probed : Delivery) (h : History)
        → job.request ≡ request
        → IsOpen request report
        → Reports request (after_probe out inspector auditor report job probed h).0
    unfolding after_probe reached
    after_probe-Reports report job probed h same o =
        let o' : IsOpen request (reached out inspector auditor report probed) =
          IsOpen-add_checks request _ _ (omega arith)
            (record { points = o.points; score = o.score; coverage = o.coverage; paid = o.paid }) in
        if-Reports request (not (probed.response.status_code == 402)) _ _
          (λ _. unpriced-Reports _ job probed h o') (λ _. parsed_answer-Reports _ job h _ same o')

    probed_answer-Reports :
        (report : AuditReport) (job : Job out inspector auditor)
        (answer : Result Delivery × History)
        → job.request ≡ request
        → IsOpen request report
        → Reports request (probed_answer out inspector auditor report job answer).0
    unfolding probed_answer
    probed_answer-Reports report job (ok probed, h) same o =
        after_probe-Reports report job probed h same o
    probed_answer-Reports report job (err e, h) same o =
        complete-Reports request out inspector auditor fair scoring _ job _ h
          (IsOpen-add_checks request _ _ (omega arith) o)

    identified-Reports :
        (url : Url) (method : Text) (h : History) (bytes : Result Text)
        → Reports request (identified out inspector auditor request url method h bytes).0
    unfolding identified inspected run_job first_report
    identified-Reports url method h (err e) = tt
    identified-Reports url method h (ok bytes) =
        probed_answer-Reports _ _ _ refl
          (record { points = tt; score = omega arith; coverage = omega arith; paid = λ v. cc })

    validated-Reports :
        (answer : Result (Url × Text) × History)
        → Reports request (validated out inspector auditor request answer).0
    unfolding validated
    validated-Reports (err e, h) = tt
    validated-Reports (ok (url, method), h) = identified-Reports url method h (out.report_bytes h)

-- The report of an audit that completes: its score and its coverage are at most 100, its verdict says
-- what its tier and its checks say, and the tier of paid audits is given only where `pay` was asked for
-- and a payment was attempted. It is assumed that the evaluator scores up to 100 and that the checks of the
-- specification review have no more points than weight.
pub audit-Reports :
    (out : Outside) (inspector : Inspector) (auditor : Auditor) (request : AuditRequest)
    (h : History)
    → FairInspector inspector
    → IsScoring auditor.evaluator
    → Reports request (audit out inspector auditor request h).0
unfolding audit
audit-Reports out inspector auditor request h fair scoring =
    validated-Reports request out inspector auditor fair scoring _
