-- ===== src/Auditor/Requests/Valid.antt =====
-- The requests that `validateRequest` takes, and what `send` keeps of a response
-- (internal/canary/auditor.go).
use canary.Base.{
  ℕ, ◌+◌, ◌≤◌, ◌<◌, Text, lit, text_eq, nat_eq, length, length-take_le, ltb, ok, Bool-cases, ◌≡◌,
  ◌≢◌, ◌↔◌, ◌⊎◌, inl, inr, arith, Bool, true, false, [],
}
use canary.Report.{AuditRequest}
use canary.Effect.{Response}
use canary.Auditor.{AuditConfig, Outside, Auditor}
use canary.Auditor.Requests.{method_of, bad_status, check_request, Delivery, receive}

-- The requests that are taken, before their URL is read.
pub record IsRequest (json_valid : Text → Bool) (config : AuditConfig) (request : AuditRequest)
    : Type 0 where
  pub method : (method_of request ≡ lit "GET") ⊎ (method_of request ≡ lit "POST")
  pub get_body : method_of request ≡ lit "GET" → request.body ≡ []
  pub body_size : length request.body ≤ config.max_request_body_bytes
  pub content_type :
      request.body ≢ []
      → (request.content_type ≡ []) ⊎ (request.content_type ≡ lit "application/json")
  pub json : request.body ≢ [] → json_valid request.body ≡ true
  pub expectation_size : length request.expectation ≤ config.max_expectation_bytes
  pub status : bad_status request.expected_status ≡ false
  pub repairs : request.generate_repairs ≡ true → request.spec_review ≡ true

module _ (json_valid : Text → Bool) (config : AuditConfig) (request : AuditRequest) where
  check_request_sound :
      check_request json_valid config request ≡ ok tt → IsRequest json_valid config request
  unfolding check_request
  check_request_sound h = record {
    method = ground arith;
    get_body = λ g. ground arith;
    body_size = ground arith;
    content_type = λ b. ground arith;
    json = λ b. ground arith;
    expectation_size = ground arith;
    status = ground arith;
    repairs = λ g. ground arith;
  }

  check_request_complete :
      IsRequest json_valid config request → check_request json_valid config request ≡ ok tt
  unfolding check_request
  check_request_complete r = ground arith

  -- `validateRequest` takes, up to the target, exactly the requests with method GET or POST, a body
  -- only with POST, in JSON and within its limit, an expectation within its limit, a possible status,
  -- and repairs only with a specification review.
  pub check_request-ok_iff :
      (check_request json_valid config request ≡ ok tt) ↔ IsRequest json_valid config request
  check_request-ok_iff = (check_request_sound, check_request_complete)

-- What is kept of a body that was read.
pub record IsKept (limit : ℕ) (bytes : Text) (d : Delivery) : Type 0 where
  pub bounded : length d.body ≤ limit
  pub truncated_iff : (d.truncated ≡ true) ↔ (limit < length bytes)
  pub whole : d.truncated ≡ false → d.body ≡ bytes

-- What `send` hands on of a body is at most the configured number of bytes. It is marked as truncated
-- exactly if more was read, and otherwise it is the whole of what was read.
pub receive-IsKept :
    (out : Outside) (auditor : Auditor) (response : Response) (latency : ℕ) (bytes : Text)
    (d : Delivery)
    → response.read_body (auditor.target.max_response_bytes + 1) ≡ ok bytes
    → receive out auditor response latency ≡ ok d
    → IsKept auditor.target.max_response_bytes bytes d
unfolding receive
receive-IsKept out auditor response latency bytes d read received =
    elim (Bool-cases (ltb auditor.target.max_response_bytes (length bytes))) [
      | inl long ↦ record {
        bounded = grind (arith, length-take_le);
        truncated_iff = ground arith;
        whole = ground arith;
      }
      | inr short ↦ record {
        bounded = ground arith;
        truncated_iff = ground arith;
        whole = ground arith;
      }
    ]
