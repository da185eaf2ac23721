-- ===== src/Auditor/Flow/Stages.antt =====
-- Induction over the stages of `Audit` (internal/canary/auditor.go): what holds at each end holds of
-- the whole.
use canary.Base.{
  refl, ℕ, nat_eq, text_eq, ◌==◌, not, if◌then◌else◌, Text, Result, ok, err, ◌≡◌, Bool, true, false,
  Option,
}
use canary.Report.{AuditRequest, AuditReport}
use canary.Effect.{Url, History}
use canary.Payment.{PaymentRequirement, PaymentChallenge}
use canary.Payment.Authorize.{PaymentAuthorization}
use canary.Auditor.{Outside, Inspector, Auditor}
use canary.Auditor.Checks.{Outcome}
use canary.Auditor.Requests.{Delivery, validate_request}
use canary.Auditor.Completion.{Job, complete}
use canary.Auditor.Evaluation.{evaluate_outcome}
use canary.Auditor.Paying.{after_payment, paid_answer, pay, authorized_answer, spend}
use canary.Auditor.Flow.{
  selection, after_challenge, unpriced, parsed_answer, after_probe, probed_answer, run_job,
  inspected, identified, validated, audit,
}
use canary.Auditor.Checks.{broken, invalid}
use canary.Auditor.Flow.{start_inspection}
use canary.Payment.Authorize.{authorize}
use canary.Auditor.Requests.{send}
use canary.Json.{Object}
use canary.Base.{lit, ◌++◌}
use canary.Base.{subst, sym, ap}

-- The operations keep a property of the history, and from it the ends give a property of the result.
pub record Steps (out : Outside) (inspector : Inspector) (auditor : Auditor) (I : History → Type 0)
    (P : Outcome × History → Type 0) : Type 0 where
  pub at_end :
      (report : AuditReport) (job : Job out inspector auditor) (challenge : Option PaymentChallenge)
      (h : History)
      → I h
      → P (complete out inspector auditor report job challenge h)
  pub evaluates :
      (report : AuditReport) (asked : AuditRequest) (status : ℕ) (content_type body : Text)
      (h : History)
      → I h
      → I (evaluate_outcome auditor report asked status content_type body h).1
  pub sends :
      (url : Url) (method : Text) (asked : AuditRequest) (payment : Text × Text) (h : History)
      → I h
      → I (send out auditor url method asked payment h).1
  pub authorizes :
      (r : PaymentRequirement) (extensions : Object) (h : History)
      → I h
      → I (authorize out.signer out.platform auditor.authorizer r extensions h).1
  pub inspects :
      (request : AuditRequest) (url : Url) (method : Text) (h : History)
      → I h
      → I (start_inspection out inspector auditor request url method h).1

module _ (out : Outside) (inspector : Inspector) (auditor : Auditor) (I : History → Type 0)
    (P : Outcome × History → Type 0) (steps : Steps out inspector auditor I P) where
  if-holds : (b : Bool) (x y : Outcome × History) → P x → P y → P (if b then x else y)
  if-holds true x y f g = f
  if-holds false x y f g = g

  evaluated-holds :
      (report : AuditReport) (job : Job out inspector auditor) (challenge : Option PaymentChallenge)
      (status : ℕ) (content_type body : Text) (h : History)
      → I h
      → P (
          complete out inspector auditor
            (evaluate_outcome auditor report job.request status content_type body h).0
            job
            challenge
            (evaluate_outcome auditor report job.request status content_type body h).1)
  evaluated-holds report job challenge status content_type body h w =
      steps.at_end _ job challenge _
        (steps.evaluates report job.request status content_type body h w)

  paid_answer-holds :
      (report : AuditReport) (job : Job out inspector auditor) (challenge : PaymentChallenge)
      (answer : Result Delivery × History)
      → I answer.1
      → P (paid_answer out inspector auditor report job challenge answer)
  unfolding paid_answer after_payment
  paid_answer-holds report job challenge (ok paid, h) w = evaluated-holds _ job _ _ _ _ h w
  paid_answer-holds report job challenge (err e, h) w = steps.at_end _ job _ h w

  authorized_answer-holds :
      (report : AuditReport) (job : Job out inspector auditor) (challenge : PaymentChallenge)
      (header : Text) (answer : Result PaymentAuthorization × History)
      → I answer.1
      → P (authorized_answer out inspector auditor report job challenge header answer)
  unfolding authorized_answer pay
  authorized_answer-holds report job challenge header (ok authorization, h) w =
      paid_answer-holds _ job challenge _
        (steps.sends job.url job.method job.request (header, authorization.header) h w)
  authorized_answer-holds report job challenge header (err e, h) w = steps.at_end _ job _ h w

  selection-holds :
      (report : AuditReport) (job : Job out inspector auditor) (challenge : PaymentChallenge)
      (header : Text) (h : History) (choice : Result PaymentRequirement)
      → I h
      → P (selection out inspector auditor report job challenge header h choice)
  unfolding selection spend
  selection-holds report job challenge header h (ok selected) w =
      authorized_answer-holds _ job challenge header _
        (steps.authorizes selected challenge.extensions h w)
  selection-holds report job challenge header h (err e) w = steps.at_end _ job _ h w

  parsed_answer-holds :
      (report : AuditReport) (job : Job out inspector auditor) (h : History)
      (parsed : Result (PaymentChallenge × Text × Text))
      → I h
      → P (parsed_answer out inspector auditor report job h parsed)
  unfolding parsed_answer after_challenge
  parsed_answer-holds report job h (ok (challenge, transport, header)) w =
      if-holds (not job.request.pay) _ _ (steps.at_end _ job _ h w)
        (selection-holds _ job challenge header h _ w)
  parsed_answer-holds report job h (err e) w = steps.at_end _ job _ h w

  unpriced-holds :
      (report : AuditReport) (job : Job out inspector auditor) (probed : Delivery) (h : History)
      → I h
      → P (unpriced out inspector auditor report job probed h)
  unfolding unpriced
  unpriced-holds report job probed h w = evaluated-holds _ job _ _ _ _ h w

  probed_answer-holds :
      (report : AuditReport) (job : Job out inspector auditor) (answer : Result Delivery × History)
      → I answer.1
      → P (probed_answer out inspector auditor report job answer)
  unfolding probed_answer after_probe
  probed_answer-holds report job (ok probed, h) w =
      if-holds (not (probed.response.status_code == 402)) _ _ (unpriced-holds _ job probed h w)
        (parsed_answer-holds _ job h _ w)
  probed_answer-holds report job (err e, h) w = steps.at_end _ job _ h w

  identified-holds :
      (request : AuditRequest) (url : Url) (method : Text) (h : History) (bytes : Result Text)
      → ((e : Text) → bytes ≡ err e → P (broken (lit "generate report id: " ++ e), h))
      → I h
      → P (identified out inspector auditor request url method h bytes)
  unfolding identified inspected run_job
  identified-holds request url method h (err e) unnamed w = unnamed e refl
  identified-holds request url method h (ok bytes) unnamed w =
      probed_answer-holds _ _ _
        (steps.sends url method request _ _ (steps.inspects request url method h w))

  -- The audit of a request that is valid, from the history behind the validation.
  pub audit-holds :
      (request : AuditRequest) (h : History) (url : Url) (method : Text)
      → let since = (validate_request out auditor request h).1 in
        (validate_request out auditor request h).0 ≡ ok (url, method)
        → ((e : Text)
            → out.report_bytes since ≡ err e
            → P (broken (lit "generate report id: " ++ e), since))
        → I since
        → P (audit out inspector auditor request h)
  unfolding audit validated
  audit-holds request h url method valid unnamed w =
      let since = (validate_request out auditor request h).1 in
      subst
        (λ (answer : Result (Url × Text)).
          P (validated out inspector auditor request (answer, since)))
        (sym valid) (identified-holds request url method since (out.report_bytes since) unnamed w)

-- The audit of a request that is not.
pub audit-refused :
    (out : Outside) (inspector : Inspector) (auditor : Auditor) (request : AuditRequest)
    (h : History) (e : Text)
    → (validate_request out auditor request h).0 ≡ err e
    → audit out inspector auditor request h
      ≡ (invalid e, (validate_request out auditor request h).1)
unfolding audit validated
audit-refused out inspector auditor request h e bad =
    ap
      (λ (answer : Result (Url × Text)).
        validated out inspector auditor request
          (answer, (validate_request out auditor request h).1))
      bad
