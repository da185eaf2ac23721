-- ===== src/Report.antt =====
-- The request, the report and its parts (internal/canary/types.go). A field that holds one of a few
-- constants is a data type; times are Unix seconds and latencies milliseconds.
use canary.Base.{ℕ, Text, ℤ, Bool, Option, List, Eq}
use canary.Json.{Json}

pub record AuditRequest : Type 0 where
  pub url : Text
  pub method : Text
  pub body : Text
  pub content_type : Text
  pub expectation : Text
  pub expected_status : ℤ
  pub spec_review : Bool
  pub generate_repairs : Bool
  pub pay : Bool
  pub max_payment_atomic : Text
  pub payment_network : Text
  pub payment_asset : Text

-- `checkPassed`, `checkWarning`, `checkFailed`, `checkSkipped`
pub data Status : Type 0 where
  passed warning failed skipped : Status

pub Status-discrete : Discrete Status
Status-discrete = hlevel

instance unfoldable pub status_eq : Eq Status
unfolding Status-discrete
status_eq = record { dec = Status-discrete }

pub data CheckName : Type 0 where
  service_discovery request_contract reachability x402_challenge payment_budget paid_delivery
        task_outcome :
      CheckName

pub record Check : Type 0 where
  pub name : CheckName
  pub status : Status
  pub weight : ℕ
  pub points : ℕ
  pub evidence : Text

pub record PaymentOptionSummary : Type 0 where
  pub scheme : Text
  pub network : Text
  pub amount : Text
  pub asset : Text
  pub pay_to : Text
  pub transfer_method : Text

pub record ProbeResult : Type 0 where
  pub status_code : ℕ
  pub latency_ms : ℕ
  pub content_type : Text
  pub body_bytes : ℕ
  pub body_sha256 : Text
  pub x402_version : ℤ
  pub challenge_transport : Text
  pub payment_options : List PaymentOptionSummary
  pub response_truncated : Bool

pub record PaymentResult : Type 0 where
  pub requested : Bool
  pub attempted : Bool
  pub selected : Option PaymentOptionSummary
  pub payer : Text
  pub authorization_header : Text
  pub status_code : ℕ
  pub latency_ms : ℕ
  pub content_type : Text
  pub body_bytes : ℕ
  pub body_sha256 : Text
  pub response_truncated : Bool
  pub settlement_evidence : Text
  pub error : Text

pub record SemanticResult : Type 0 where
  pub attempted : Bool
  pub passed : Bool
  pub score : ℕ
  pub reason : Text
  pub model : Text
  pub error : Text

pub record SpecDocument : Type 0 where
  pub kind : Text
  pub url : Text
  pub status_code : ℕ
  pub content_type : Text
  pub body_bytes : ℕ
  pub body_sha256 : Text
  pub available : Bool
  pub valid : Bool
  pub response_truncated : Bool
  pub error : Text

pub record SpecOperation : Type 0 where
  pub found : Bool
  pub open_api_path : Text
  pub method : Text
  pub summary : Text
  pub request_schema : Bool
  pub concrete_request_schema : Bool
  pub response_schema : Bool
  pub concrete_response_schema : Bool
  pub request_example : Bool
  pub response_example : Bool

pub record SpecChallengeReview : Type 0 where
  pub resource_url : Text
  pub resource_matches : Bool
  pub bazaar_extension : Bool
  pub bazaar_input_schema : Bool
  pub bazaar_output_schema : Bool

-- The severities "error", "warning" and "info".
pub data Severity : Type 0 where
  error warning info : Severity

pub record SpecFinding : Type 0 where
  pub code : Text
  pub severity : Severity
  pub message : Text
  pub repair : Text

pub record SpecRequestTemplate : Type 0 where
  pub url : Text
  pub method : Text
  pub content_type : Text
  pub body_file : Text

pub record SpecRepairBundle : Type 0 where
  pub open_api_patch : Json
  pub bazaar_declaration : Json
  pub request_template : SpecRequestTemplate
  pub review_required : List Text

-- "READY" and "NEEDS_REPAIR"; `pending` is the empty string before `finalize`.
pub data ReviewStatus : Type 0 where
  pending ready needs_repair : ReviewStatus

pub record SpecReviewResult : Type 0 where
  pub requested : Bool
  pub status : ReviewStatus
  pub documents : List SpecDocument
  pub operation : SpecOperation
  pub challenge : SpecChallengeReview
  pub findings : List SpecFinding
  pub repairs : Option SpecRepairBundle

-- "probe" and "verified"
pub data Tier : Type 0 where
  probe verified : Tier

-- `undecided` is the empty string before `finalizeReport`.
pub data Verdict : Type 0 where
  undecided fail probe_pass_with_warnings probe_pass pass_with_warnings pass : Verdict

pub record AuditReport : Type 0 where
  pub id : Text
  pub created_at : ℕ
  pub target : Text
  pub method : Text
  pub tier : Tier
  pub verdict : Verdict
  pub score : ℕ
  pub coverage_percent : ℕ
  pub summary : Text
  pub checks : List Check
  pub probe : ProbeResult
  pub payment : PaymentResult
  pub semantic : SemanticResult
  pub spec_review : Option SpecReviewResult
