-- ===== src/Examples.antt =====
-- Concrete data: one paid audit of a service on Base Sepolia.
mod Inspectors
mod Audits
mod Service
mod Stored
mod Startup
mod Reviews
use canary.Base.{◌+◌, Text, lit, pos, ok, err, arith, true, false, none, some, [], ◌∷◌}
use canary.Json.{num, str, end, field}
use canary.Report.{
  verified, undecided, task_outcome, paid_delivery, passed, AuditRequest, AuditReport,
  SemanticResult, status_eq,
}
use canary.Auditor.Checks.{check, skip, no_probe, no_payment, no_semantic}
use canary.Effect.{Url, OutgoingRequest, Response}
use canary.Payment.{PaymentRequirement, PaymentChallenge, PaymentPolicy}
use canary.Payment.Challenge.{RawChallenge, Decoders}
use canary.Payment.Select.{Wanted}
use canary.Payment.Authorize.{TypedDataSigner, Platform}
use canary.Target.{TargetPolicy, Network}
use canary.Target.Address.{v4}
use canary.Auditor
use canary.Auditor.{Auditor, Evaluator}
use canary.Auditor.Evaluation.Points.{IsScoring}
use canary.Auditor.Paying.{pay}

abbrev usdc : Text
usdc = lit "0x036cbd53842c5426634e7929541ec2318f3dcf7e"

abbrev payee : Text
payee = lit "0x2222222222222222222222222222222222222222"

abbrev offer : PaymentRequirement
offer = record {
  scheme = lit "exact";
  network = lit "eip155:84532";
  amount = lit "1000";
  asset = usdc;
  pay_to = payee;
  max_timeout_seconds = pos 60;
  extra = none;
}

-- The same option under the name of its network, and one above the cap.
abbrev named : PaymentRequirement
named = record offer { network = lit "Base-Sepolia" }

abbrev dear : PaymentRequirement
dear = record offer { amount = lit "9000" }

abbrev policy : PaymentPolicy
policy = record {
  max_atomic_amount = lit "20000";
  allowed_networks = (lit "eip155:8453", 8453) ∷ (lit "eip155:84532", 84532) ∷ [];
  allowed_assets = (lit "eip155:84532", usdc) ∷ [];
  authorization_ttl = 1800;
}

abbrev request : AuditRequest
request = record {
  url = lit "https://api.example/quote";
  method = lit "post";
  body = lit "{}";
  content_type = [];
  expectation = lit "a quote";
  expected_status = pos 0;
  spec_review = true;
  generate_repairs = false;
  pay = true;
  max_payment_atomic = lit " 5000 ";
  payment_network = lit "base-sepolia";
  payment_asset = [];
}

abbrev wanted : Wanted
wanted = record { network = lit "eip155:84532"; asset = []; request_max = 5000; system_max = 20000 }

abbrev raw : RawChallenge
raw = record {
  x402_version = pos 2;
  resource = str (lit "https://api.example/quote");
  accepts =
      some (
        field (lit "scheme") (str (lit "exact")) (
          field (lit "network") (str (lit "base-sepolia")) (
            field (lit "maxAmountRequired") (num (lit "+01000"))
              (field (lit "asset") (str usdc) (field (lit "payTo") (str payee) end)))))
      ∷ [];
  extensions = none;
}

challenge : PaymentChallenge
challenge = record {
  version = pos 2;
  resource_url = lit "https://api.example/quote";
  accepts = record named { network = lit "base-sepolia" } ∷ [];
  extensions = none;
}

abbrev url : Url
url = record {
  scheme = lit "https";
  has_user = false;
  host = lit "api.example";
  hostname = lit "api.example";
  port = [];
  path = lit "/quote";
  escaped_path = lit "/quote";
  raw_query = [];
  fragment = [];
}

abbrev target : TargetPolicy
target = record {
  allow_http = false;
  allow_private_targets = false;
  timeout = 20000;
  max_response_bytes = 8;
}

-- A resolver that answers with a public address first, and with the loopback address from then on.
abbrev rebinding : Network
rebinding = record {
  parse_request_uri = λ s. ok url;
  parse_addr = λ s. err (lit "no address");
  lookup_net_ip =
      λ host h. elim h [ [] ↦ ok (v4 0x08080808 ∷ []) | event ∷ h' ↦ ok (v4 0x7F000001 ∷ []) ];
  split_host_port = λ s. ok (lit "api.example", lit "443");
  dial = λ ip port h. ok tt;
}

abbrev steady : Network
steady = record rebinding { lookup_net_ip = λ host h. ok (v4 0x08080808 ∷ []) }

abbrev decoders : Decoders
decoders = record {
  decode_challenge = λ s. some raw;
  base64_std = λ s. none;
  base64_raw_std = λ s. none;
  base64_url = λ s. none;
  base64_raw_url = λ s. none;
}

abbrev signer : TypedDataSigner
signer = record {
  address = λ h. ok (lit "0x1111111111111111111111111111111111111111");
  sign_typed_data = λ payer message h. ok (lit "0x00");
}

abbrev platform : Platform
platform = record {
  random = λ h. ok (1 ∷ 255 ∷ []);
  now = λ h. 1700000000;
  marshal = λ json. ok (lit "header");
  encode_base64 = λ s. s;
}

-- The body of every response of the service.
abbrev body : Text
body = lit "a long quote"

abbrev answer : OutgoingRequest → Response
answer outgoing = record {
  status_code = elim outgoing.payment [ none ↦ 402 | some header ↦ 200 ];
  headers = λ name. [];
  read_body = λ n. ok (lit "a long qu");
}

abbrev out : Auditor.Outside
out = record {
  network = steady;
  decoders = decoders;
  platform = platform;
  signer = signer;
  new_request = λ method u. ok tt;
  respond = λ outgoing h. ok (answer outgoing);
  latency_ms = λ h. 12;
  report_bytes = λ h. ok (1 ∷ 2 ∷ []);
  json_valid = λ s. true;
  parse_media_type = λ s. ok s;
  sha256 = λ s. [];
  url_string = λ u. lit "https://api.example/quote";
  save = λ report h. ok tt;
}

abbrev verdict : SemanticResult
verdict = record {
  attempted = true;
  passed = true;
  score = 80;
  reason = lit "a quote";
  model = lit "m";
  error = [];
}

abbrev evaluator : Evaluator
evaluator = λ expectation input status content_type h. ok verdict

evaluator-IsScoring : IsScoring (some evaluator)
evaluator-IsScoring expectation input status content_type h r same = ground arith

abbrev auditor : Auditor
auditor = record {
  target = target;
  authorizer = record { policy = policy; max = 20000 };
  evaluator = some evaluator;
  config = record {
    max_request_body_bytes = 65536;
    max_expectation_bytes = 2000;
    semantic_input_bytes = 12000;
  };
}

-- A report before it is finalised: of one check 20 of 25 points, another that was skipped.
abbrev report : AuditReport
report = record {
  id = lit "0123456789abcdef0123456789abcdef";
  created_at = 0;
  target = [];
  method = lit "POST";
  tier = verified;
  verdict = undecided;
  score = 0;
  coverage_percent = 0;
  summary = [];
  checks =
      check task_outcome passed 25 20 (lit "a quote")
      ∷ skip paid_delivery 25 (lit "Payment was not attempted.")
      ∷ [];
  probe = no_probe;
  payment = no_payment true;
  semantic = no_semantic;
  spec_review = none;
}
