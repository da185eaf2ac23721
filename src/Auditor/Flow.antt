-- ===== src/Auditor/Flow.antt =====
-- `Audit` (internal/canary/auditor.go), one function for each stage between two early returns.
pub mod Offered
pub mod Permits
pub mod Spending
pub mod Counts
pub mod Once
pub mod Open
pub mod Reports
pub mod Stages
pub mod Saves
pub mod Saved
pub mod Faults
use canary.Base.{
  ◌+◌, Text, lit, text_eq, nat_eq, decimal, format_int, length, ◌==◌, Result, ok, err,
  if◌then◌else◌, not, Option, none, some, [], ◌∷◌, ◌++◌, map,
}
use canary.Report.{
  AuditRequest, AuditReport, reachability, x402_challenge, passed, ProbeResult, probe, undecided,
}
use canary.Effect.{Url, History}
use canary.Payment.{PaymentRequirement, PaymentChallenge, summary}
use canary.Payment.Challenge.{parse_payment_challenge_response}
use canary.Payment.Select.{select_payment}
use canary.Payment.Authorize.{hex_encode}
use canary.Auditor.{Outside, Inspector, Auditor, media_type, redacted_url}
use canary.Auditor.Checks.{
  Outcome, invalid, broken, check, no_probe, no_payment, no_semantic, unreachable_checks,
  unpriced_checks, bad_challenge_checks, probe_only_checks, unselected_checks,
}
use canary.Auditor.Requests.{Delivery, validate_request, send}
use canary.Auditor.Evaluation.{add_checks, evaluate_outcome}
use canary.Auditor.Completion.{Job, complete}
use canary.Auditor.Paying.{pay, spend}

module _ (out : Outside) (inspector : Inspector) (auditor : Auditor) where
  open inspector use {Inspection, inspect, finalize}

  challenged : AuditReport → PaymentChallenge → Text → AuditReport
  challenged report challenge transport =
      add_checks
        (record report {
          probe = record report.probe {
            x402_version = challenge.version;
            challenge_transport = transport;
            payment_options = map summary challenge.accepts;
          };
        })
        (check x402_challenge passed 30 30 (
            lit "Valid x402 v"
            ++ (format_int challenge.version
                ++ (lit " challenge advertised "
                    ++ (decimal (length challenge.accepts) ++ lit " payment option(s)."))))
          ∷ [])

  selection :
      AuditReport
      → Job out inspector auditor
      → PaymentChallenge
      → Text
      → History
      → Result PaymentRequirement
      → Outcome × History
  selection report job challenge header h (ok selected) =
      spend out inspector auditor report job challenge header selected h
  selection report job challenge header h (err e) =
      complete out inspector auditor (add_checks report (unselected_checks e)) job (some challenge)
        h

  -- Behind a valid challenge.
  unfoldable pub after_challenge :
      AuditReport
      → Job out inspector auditor
      → PaymentChallenge
      → Text
      → Text
      → History
      → Outcome × History
  unfolding challenged selection
  after_challenge report job challenge transport header h =
      let report' = challenged report challenge transport in
      if not job.request.pay
      then complete out inspector auditor (add_checks report' probe_only_checks) job
          (some challenge) h
      else selection report' job challenge header h
          (select_payment challenge.accepts job.request auditor.authorizer.policy)

  probe_result : Delivery → ProbeResult
  probe_result probed = record no_probe {
    status_code = probed.response.status_code;
    latency_ms = probed.latency_ms;
    content_type = media_type out (probed.response.headers (lit "Content-Type"));
    body_bytes = length probed.body;
    body_sha256 = out.sha256 probed.body;
    response_truncated = probed.truncated;
  }

  -- Behind a status that is not 402.
  unfoldable pub unpriced :
      AuditReport → Job out inspector auditor → Delivery → History → Outcome × History
  unpriced report job probed h =
      let status = probed.response.status_code in
      let (report', h') =
        evaluate_outcome auditor (add_checks report (unpriced_checks status)) job.request status
          report.probe.content_type probed.body h in
      complete out inspector auditor report' job none h'

  parsed_answer :
      AuditReport
      → Job out inspector auditor
      → History
      → Result (PaymentChallenge × Text × Text)
      → Outcome × History
  parsed_answer report job h (ok (challenge, transport, header)) =
      after_challenge report job challenge transport header h
  parsed_answer report job h (err e) =
      complete out inspector auditor (add_checks report (bad_challenge_checks e)) job none h

  reached : AuditReport → Delivery → AuditReport
  reached report probed =
      add_checks (record report { probe = probe_result probed })
        (check reachability passed 10 10 (
            lit "Target responded with HTTP "
            ++ (decimal probed.response.status_code
                ++ (lit " in " ++ (decimal probed.latency_ms ++ lit " ms."))))
          ∷ [])

  -- Behind the probe.
  unfoldable pub after_probe :
      AuditReport → Job out inspector auditor → Delivery → History → Outcome × History
  unfolding media_type probe_result reached parsed_answer
  after_probe report job probed h =
      let report' = reached report probed in
      if not (probed.response.status_code == 402)
      then unpriced report' job probed h
      else parsed_answer report' job h
          (parse_payment_challenge_response out.decoders probed.response.headers probed.body)

  first_report : AuditRequest → Url → Text → Text → History → AuditReport
  first_report request url method id h = record {
    id = id;
    created_at = out.platform.now h;
    target = redacted_url out url;
    method = method;
    tier = probe;
    verdict = undecided;
    score = 0;
    coverage_percent = 0;
    summary = [];
    checks = [];
    probe = no_probe;
    payment = no_payment request.pay;
    semantic = no_semantic;
    spec_review = none;
  }

  -- `if request.SpecReview { specInspection = a.inspectSpecifications(…) }`
  unfoldable pub start_inspection :
      AuditRequest → Url → Text → History → Option Inspection × History
  start_inspection request url method h =
      if not request.spec_review
      then (none, h)
      else let (inspection, h') = inspect url method request.body request.generate_repairs h in
        (some inspection, h')

  probed_answer :
      AuditReport → Job out inspector auditor → Result Delivery × History → Outcome × History
  probed_answer report job (ok probed, h) = after_probe report job probed h
  probed_answer report job (err e, h) =
      complete out inspector auditor (add_checks report (unreachable_checks e)) job none h

  -- Behind the inspection: the probe.
  unfoldable pub run_job : AuditReport → Job out inspector auditor → History → Outcome × History
  unfolding probed_answer
  run_job report job h =
      probed_answer report job (send out auditor job.url job.method job.request ([], []) h)

  inspected :
      AuditRequest → Url → Text → AuditReport → Option Inspection × History → Outcome × History
  inspected request url method report (inspection, h) =
      run_job report
        (record { request = request; url = url; method = method; inspection = inspection }) h

  -- Behind the report id.
  identified : AuditRequest → Url → Text → History → Result Text → Outcome × History
  identified request url method h (err e) = (broken (lit "generate report id: " ++ e), h)
  identified request url method h (ok bytes) =
      inspected request url method (first_report request url method (hex_encode bytes) h)
        (start_inspection request url method h)

  validated : AuditRequest → Result (Url × Text) × History → Outcome × History
  validated request (err e, h) = (invalid e, h)
  validated request (ok (url, method), h) = identified request url method h (out.report_bytes h)

  unfoldable pub audit : AuditRequest → History → Outcome × History
  unfolding start_inspection first_report inspected identified validated
  audit request h = validated request (validate_request out auditor request h)
