-- ===== src/Auditor/Paying.antt =====
-- The stages of `Audit` (internal/canary/auditor.go) behind the selection of an option:
-- authorization, paid request, outcome.
use canary.Base.{
  Text, lit, text_eq, nat_eq, decimal, length, is_empty, Result, ok, err, if◌then◌else◌, true, some,
  [], ◌∷◌, ◌++◌,
}
use canary.Evidence.{safe_error, settlement_evidence, first_header}
use canary.Report.{
  AuditReport, Check, payment_budget, paid_delivery, passed, PaymentResult, verified,
}
use canary.Effect.{History}
use canary.Payment.{PaymentRequirement, PaymentChallenge, summary}
use canary.Payment.Authorize.{PaymentAuthorization, authorize}
use canary.Auditor.{Outside, Inspector, Auditor, media_type}
use canary.Auditor.Checks.{Outcome, check, fails, undelivered_checks}
use canary.Auditor.Requests.{Delivery, send}
use canary.Auditor.Evaluation.{add_checks, is_success, evaluate_outcome}
use canary.Auditor.Completion.{Job, complete}

module _ (out : Outside) (inspector : Inspector) (auditor : Auditor) where
  open inspector use {Inspection, inspect, finalize}

  -- Behind the paid request.
  unfoldable pub paid_payment : PaymentResult → Delivery → PaymentResult
  paid_payment payment paid = record payment {
    status_code = paid.response.status_code;
    latency_ms = paid.latency_ms;
    content_type = media_type out (paid.response.headers (lit "Content-Type"));
    body_bytes = length paid.body;
    body_sha256 = out.sha256 paid.body;
    response_truncated = paid.truncated;
    settlement_evidence = settlement_evidence (
        first_header paid.response.headers
          (lit "PAYMENT-RESPONSE" ∷ lit "X-PAYMENT-RESPONSE" ∷ []));
  }

  unfoldable pub delivered_evidence : PaymentResult → Text
  delivered_evidence payment =
      let settled =
        if is_empty payment.settlement_evidence
        then []
        else lit " Settlement evidence was returned." in
      lit "Paid retry returned HTTP "
      ++ (decimal payment.status_code
          ++ (lit " in " ++ (decimal payment.latency_ms ++ (lit " ms." ++ settled))))

  unfoldable pub delivery_check : PaymentResult → Check
  delivery_check payment =
      if is_success payment.status_code
      then check paid_delivery passed 25 25 (delivered_evidence payment)
      else fails paid_delivery 25 (
          lit "Paid retry returned HTTP "
          ++ (decimal payment.status_code ++ lit "; verify settlement evidence before retrying."))

  unfoldable pub after_payment :
      AuditReport
      → Job out inspector auditor
      → PaymentChallenge
      → Delivery
      → History
      → Outcome × History
  unfolding media_type paid_payment delivered_evidence delivery_check
  after_payment report job challenge paid h =
      let payment = paid_payment report.payment paid in
      let report' =
        add_checks (record report { tier = verified; payment = payment })
          (delivery_check payment ∷ []) in
      let (report'', h') =
        evaluate_outcome auditor report' job.request payment.status_code payment.content_type
          paid.body h in
      complete out inspector auditor report'' job (some challenge) h'

  -- `report.Payment.Error` and the two checks of a payment that failed.
  abbrev pub with_payment_error : AuditReport → Text → Text → AuditReport
  with_payment_error report e evidence =
      add_checks (record report { payment = record report.payment { error = safe_error e } })
        (undelivered_checks (evidence ++ safe_error e))

  unfoldable pub paid_answer :
      AuditReport
      → Job out inspector auditor
      → PaymentChallenge
      → Result Delivery × History
      → Outcome × History
  paid_answer report job challenge (ok paid, h) = after_payment report job challenge paid h
  paid_answer report job challenge (err e, h) =
      complete out inspector auditor
        (with_payment_error report e (lit "Paid request failed before an HTTP response: ")) job
        (some challenge) h

  abbrev pub attempted : AuditReport → PaymentAuthorization → Text → AuditReport
  attempted report authorization header = record report {
    payment = record report.payment {
      attempted = true;
      payer = authorization.payer;
      authorization_header = header;
    };
  }

  -- Behind the authorization: the paid request.
  unfoldable pub pay :
      AuditReport
      → Job out inspector auditor
      → PaymentChallenge
      → Text
      → PaymentAuthorization
      → History
      → Outcome × History
  unfolding paid_answer
  pay report job challenge header authorization h =
      paid_answer (attempted report authorization header) job challenge
        (send out auditor job.url job.method job.request (header, authorization.header) h)

  unfoldable pub authorized_answer :
      AuditReport
      → Job out inspector auditor
      → PaymentChallenge
      → Text
      → Result PaymentAuthorization × History
      → Outcome × History
  authorized_answer report job challenge header (ok authorization, h) =
      pay report job challenge header authorization h
  authorized_answer report job challenge header (err e, h) =
      complete out inspector auditor
        (with_payment_error report e (lit "Could not authorize payment: ")) job (some challenge) h

  unfoldable pub budgeted :
      AuditReport → Job out inspector auditor → PaymentRequirement → AuditReport
  budgeted report job selected =
      add_checks
        (record report { payment = record report.payment { selected = some (summary selected) } })
        (check payment_budget passed 10 10 (
            lit "Authorized at most "
            ++ (job.request.max_payment_atomic
                ++ (lit " atomic units on "
                    ++ (selected.network
                        ++ (lit "; selected price is " ++ (selected.amount ++ lit "."))))))
          ∷ [])

  -- Behind the selection: the authorization.
  unfoldable pub spend :
      AuditReport
      → Job out inspector auditor
      → PaymentChallenge
      → Text
      → PaymentRequirement
      → History
      → Outcome × History
  unfolding authorized_answer budgeted
  spend report job challenge header selected h =
      authorized_answer (budgeted report job selected) job challenge header
        (authorize out.signer out.platform auditor.authorizer selected challenge.extensions h)
