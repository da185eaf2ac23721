-- ===== src/Auditor/Flow/Once.antt =====
-- How often `Audit` (internal/canary/auditor.go) signs and pays.
use canary.Base.{nat_eq, ◌==◌, not, ◌≤◌, Text, Result, ok, err, arith, []}
use canary.Report.{AuditRequest, AuditReport}
use canary.Effect.{Url, History}
use canary.Payment.{PaymentRequirement, PaymentChallenge}
use canary.Payment.Authorize.{PaymentAuthorization}
use canary.Auditor.{Outside, Inspector, Auditor}
use canary.Auditor.Requests.{Delivery, validate_request}
use canary.Auditor.Completion.{Job}
use canary.Auditor.Paying.{after_payment, paid_answer, pay, authorized_answer, spend}
use canary.Auditor.Flow.{
  selection, after_challenge, unpriced, parsed_answer, after_probe, probed_answer, run_job,
  inspected, identified, validated, audit,
}
use canary.Auditor.Flow.Permits.{QuietInspector}
use canary.Auditor.Flow.Counts.{
  signature_count, payment_count, Within, if-Within, complete-Within, evaluate_outcome-Within,
  validate_request-Within, probe-Within, paid-Within, authorize-Within, start_inspection-Within,
}

-- A history of at most one signature and at most one payment header.
abbrev Once : History → Type 0
Once = Within 1 1

weaken : (h : History) → Within 0 0 h → Once h
weaken h w = (omega (arith, w.0), omega (arith, w.1))

module _ (out : Outside) (inspector : Inspector) (auditor : Auditor) where
  paid_answer-Once :
      (report : AuditReport) (job : Job out inspector auditor) (challenge : PaymentChallenge)
      (answer : Result Delivery × History)
      → Once answer.1
      → Once (paid_answer out inspector auditor report job challenge answer).1
  unfolding paid_answer after_payment
  paid_answer-Once report job challenge (ok paid, h) w =
      complete-Within 1 1 out inspector auditor _ job _ _
        (evaluate_outcome-Within 1 1 out inspector auditor _ job.request _ _ _ h w)
  paid_answer-Once report job challenge (err e, h) w =
      complete-Within 1 1 out inspector auditor _ job _ h w

  authorized_answer-Once :
      (report : AuditReport) (job : Job out inspector auditor) (challenge : PaymentChallenge)
      (header : Text) (answer : Result PaymentAuthorization × History)
      → Within 1 0 answer.1
      → Once (authorized_answer out inspector auditor report job challenge header answer).1
  unfolding authorized_answer pay
  authorized_answer-Once report job challenge header (ok authorization, h) w =
      paid_answer-Once _ job challenge _ (
        paid-Within 1 0 out inspector auditor job.url job.method job.request header
          authorization.header h w)
  authorized_answer-Once report job challenge header (err e, h) w =
      complete-Within 1 1 out inspector auditor _ job _ h (w.0, omega (arith, w.1))

  selection-Once :
      (report : AuditReport) (job : Job out inspector auditor) (challenge : PaymentChallenge)
      (header : Text) (h : History) (choice : Result PaymentRequirement)
      → Within 0 0 h
      → Once (selection out inspector auditor report job challenge header h choice).1
  unfolding selection spend
  selection-Once report job challenge header h (ok selected) w =
      authorized_answer-Once _ job challenge header _ (
        authorize-Within 0 0 out inspector auditor auditor.authorizer selected challenge.extensions
          h w)
  selection-Once report job challenge header h (err e) w =
      complete-Within 1 1 out inspector auditor _ job _ h (weaken h w)

  parsed_answer-Once :
      (report : AuditReport) (job : Job out inspector auditor) (h : History)
      (parsed : Result (PaymentChallenge × Text × Text))
      → Within 0 0 h
      → Once (parsed_answer out inspector auditor report job h parsed).1
  unfolding parsed_answer after_challenge
  parsed_answer-Once report job h (ok (challenge, transport, header)) w =
      if-Within 1 1 (not job.request.pay) _ _
        (λ free. complete-Within 1 1 out inspector auditor _ job _ h (weaken h w))
        (λ asked. selection-Once _ job challenge header h _ w)
  parsed_answer-Once report job h (err e) w =
      complete-Within 1 1 out inspector auditor _ job _ h (weaken h w)

  unpriced-Once :
      (report : AuditReport) (job : Job out inspector auditor) (probed : Delivery) (h : History)
      → Within 0 0 h
      → Once (unpriced out inspector auditor report job probed h).1
  unfolding unpriced
  unpriced-Once report job probed h w =
      complete-Within 1 1 out inspector auditor _ job _ _
        (evaluate_outcome-Within 1 1 out inspector auditor _ job.request _ _ _ h (weaken h w))

  probed_answer-Once :
      (report : AuditReport) (job : Job out inspector auditor) (answer : Result Delivery × History)
      → Within 0 0 answer.1
      → Once (probed_answer out inspector auditor report job answer).1
  unfolding probed_answer after_probe
  probed_answer-Once report job (ok probed, h) w =
      if-Within 1 1 (not (probed.response.status_code == 402)) _ _
        (λ _. unpriced-Once _ job probed h w) (λ _. parsed_answer-Once _ job h _ w)
  probed_answer-Once report job (err e, h) w =
      complete-Within 1 1 out inspector auditor _ job _ h (weaken h w)

  identified-Once :
      (request : AuditRequest) (url : Url) (method : Text) (h : History) (bytes : Result Text)
      → QuietInspector inspector
      → Within 0 0 h
      → Once (identified out inspector auditor request url method h bytes).1
  unfolding identified inspected run_job
  identified-Once request url method h (err e) quiet w = (weaken h w)
  identified-Once request url method h (ok bytes) quiet w = probed_answer-Once _ _ _ (
      probe-Within 0 0 out inspector auditor url method request _
        (start_inspection-Within 0 0 out inspector auditor request url method h quiet w))

  validated-Once :
      (request : AuditRequest) (answer : Result (Url × Text) × History)
      → QuietInspector inspector
      → Within 0 0 answer.1
      → Once (validated out inspector auditor request answer).1
  unfolding validated
  validated-Once request (err e, h) quiet w = (weaken h w)
  validated-Once request (ok (url, method), h) quiet w =
      identified-Once request url method h (out.report_bytes h) quiet w

-- However the outside answers, an audit signs at most one message and sends at most one request with a
-- payment header, if the specification review is quiet.
pub audit-once :
    (out : Outside) (inspector : Inspector) (auditor : Auditor) (request : AuditRequest)
    → QuietInspector inspector
    → (signature_count (audit out inspector auditor request []).1 ≤ 1)
      × (payment_count (audit out inspector auditor request []).1 ≤ 1)
unfolding audit
audit-once out inspector auditor request quiet =
    validated-Once out inspector auditor request (validate_request out auditor request []) quiet
      (validate_request-Within 0 0 out inspector auditor request [] (omega arith, omega arith))
