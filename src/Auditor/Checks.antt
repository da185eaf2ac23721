-- ===== src/Auditor/Checks.antt =====
-- The checks of the early returns of `Audit` (internal/canary/auditor.go), and the parts of a report
-- that is still empty.
use canary.Base.{ℕ, Text, lit, decimal, Bool, false, none, List, [], ◌∷◌, ◌++◌, pos}
use canary.Evidence.{safe_error}
use canary.Report.{
  AuditReport, Check, CheckName, reachability, x402_challenge, payment_budget, paid_delivery,
  task_outcome, Status, failed, skipped, ProbeResult, PaymentResult, SemanticResult,
}

-- The report, a `ValidationError`, or another error.
pub data Outcome : Type 0 where
  completed : AuditReport → Outcome
  invalid : Text → Outcome
  broken : Text → Outcome

abbrev pub check : CheckName → Status → ℕ → ℕ → Text → Check
check name status weight points evidence = record {
  name = name;
  status = status;
  weight = weight;
  points = points;
  evidence = evidence;
}

abbrev pub skip : CheckName → ℕ → Text → Check
skip name weight evidence = check name skipped weight 0 evidence

abbrev pub fails : CheckName → ℕ → Text → Check
fails name weight evidence = check name failed weight 0 evidence

abbrev pub no_probe : ProbeResult
no_probe = record {
  status_code = 0;
  latency_ms = 0;
  content_type = [];
  body_bytes = 0;
  body_sha256 = [];
  x402_version = pos 0;
  challenge_transport = [];
  payment_options = [];
  response_truncated = false;
}

abbrev pub no_payment : Bool → PaymentResult
no_payment requested = record {
  requested = requested;
  attempted = false;
  selected = none;
  payer = [];
  authorization_header = [];
  status_code = 0;
  latency_ms = 0;
  content_type = [];
  body_bytes = 0;
  body_sha256 = [];
  response_truncated = false;
  settlement_evidence = [];
  error = [];
}

abbrev pub no_semantic : SemanticResult
no_semantic = record {
  attempted = false;
  passed = false;
  score = 0;
  reason = [];
  model = [];
  error = [];
}

-- The checks of the early returns.
abbrev pub unreachable_checks : Text → List Check
unreachable_checks e =
    fails reachability 10 (safe_error e)
    ∷ skip x402_challenge 30 (lit "No HTTP response was received.")
    ∷ skip payment_budget 10 (lit "No payment challenge was available.")
    ∷ skip paid_delivery 25 (lit "Payment was not attempted.")
    ∷ skip task_outcome 25 (lit "No response was available to evaluate.")
    ∷ []

abbrev pub unpriced_checks : ℕ → List Check
unpriced_checks status =
    fails x402_challenge 30
      (lit "Expected HTTP 402 but received HTTP " ++ (decimal status ++ lit "."))
    ∷ skip payment_budget 10 (lit "No x402 payment option was available.")
    ∷ skip paid_delivery 25 (lit "Payment was not attempted.")
    ∷ []

abbrev pub bad_challenge_checks : Text → List Check
bad_challenge_checks e =
    fails x402_challenge 30 e
    ∷ skip payment_budget 10 (lit "The payment challenge was invalid.")
    ∷ skip paid_delivery 25 (lit "Payment was not attempted.")
    ∷ skip task_outcome 25 (lit "No paid response was available to evaluate.")
    ∷ []

abbrev pub probe_only_checks : List Check
probe_only_checks =
    skip payment_budget 10 (lit "Probe-only audit; no spend was authorized.")
    ∷ skip paid_delivery 25 (lit "Probe-only audit; payment was not attempted.")
    ∷ skip task_outcome 25 (lit "A paid response is required for outcome evaluation.")
    ∷ []

abbrev pub unselected_checks : Text → List Check
unselected_checks e =
    fails payment_budget 10 e
    ∷ skip paid_delivery 25 (lit "No safe payment option was authorized.")
    ∷ skip task_outcome 25 (lit "No paid response was available to evaluate.")
    ∷ []

abbrev pub undelivered_checks : Text → List Check
undelivered_checks evidence =
    fails paid_delivery 25 evidence
    ∷ skip task_outcome 25 (lit "No paid response was available to evaluate.")
    ∷ []
