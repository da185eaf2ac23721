-- ===== src/Auditor.antt =====
-- The auditor (internal/canary/auditor.go): its configuration, and what it asks of the outside.
pub mod Scoring
pub mod Requests
pub mod Evaluation
pub mod Checks
pub mod Completion
pub mod Paying
pub mod Flow
use canary.Base.{ℕ, Text, Result, ok, err, Bool, false, Option, List, []}
use canary.Evidence.{truncate_text}
use canary.Report.{AuditReport, SemanticResult, Check, SpecReviewResult}
use canary.Effect.{Url, OutgoingRequest, Response, History}
use canary.Payment.{PaymentChallenge}
use canary.Payment.Challenge.{Decoders}
use canary.Payment.Authorize.{PaymentAuthorizer, TypedDataSigner, Platform}
use canary.Target.{TargetPolicy, Network}

pub record AuditConfig : Type 0 where
  pub max_request_body_bytes : ℕ
  pub max_expectation_bytes : ℕ
  pub semantic_input_bytes : ℕ

-- `SemanticEvaluator`: the expectation, the response text, its status and its content type.
abbrev pub Evaluator : Type 0
Evaluator = Text → Text → ℕ → Text → History → Result SemanticResult

-- What the auditor calls that is no code of the repository.
pub record Outside : Type 0 where
  pub network : Network
  pub decoders : Decoders
  pub platform : Platform
  pub signer : TypedDataSigner
  -- `http.NewRequestWithContext`, of which only the failure is read
  pub new_request : Text → Url → Result (Unit {0})
  -- `SafeHTTPClient.Do`
  pub respond : OutgoingRequest → History → Result Response
  -- The milliseconds between the start of the last request and its answer
  pub latency_ms : History → ℕ
  -- 16 bytes of crypto/rand
  pub report_bytes : History → Result Text
  pub json_valid : Text → Bool
  pub parse_media_type : Text → Result Text
  pub sha256 : Text → Text
  -- `(*url.URL).String` of a URL without query, fragment and user
  pub url_string : Url → Text
  pub save : AuditReport → History → Result (Unit {0})

-- The specification review, as the auditor uses it: `inspectSpecifications` and `finalize`.
pub record Inspector : Type 1 where
  pub Inspection : Type 0
  pub inspect : Url → Text → Text → Bool → History → Inspection × History
  pub finalize : Inspection → Url → Option PaymentChallenge → Text → List Check × SpecReviewResult

-- `mediaType`
unfoldable pub media_type : Outside → Text → Text
media_type out header = elim (out.parse_media_type header) [
  | err _ ↦ truncate_text header 100
  | ok value ↦ value
]

-- `redactedURL`: no query, no fragment, no user.
unfoldable pub redacted_url : Outside → Url → Text
redacted_url out url =
    out.url_string (record url { raw_query = []; fragment = []; has_user = false })

-- The fields of `Auditor`; without a token there is no evaluator.
pub record Auditor : Type 0 where
  pub target : TargetPolicy
  pub authorizer : PaymentAuthorizer
  pub evaluator : Option Evaluator
  pub config : AuditConfig
