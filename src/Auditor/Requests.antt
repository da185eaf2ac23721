-- ===== src/Auditor/Requests.antt =====
-- `validateRequest` and `send` (internal/canary/auditor.go).
pub mod Valid
use canary.Base.{
  ℕ, ◌+◌, Text, lit, text_eq, nat_eq, ℤ, pos, negsuc, length, take, is_empty, trim_space, to_upper,
  ltb, ◌==◌, Result, ok, err, if◌then◌else◌, Bool, true, not, ◌&&◌, ◌||◌, none, some, [], ◌++◌,
}
use canary.Report.{AuditRequest}
use canary.Effect.{
  Url, OutgoingRequest, Response, Action, sent, perform, pure, lift, observe, ◌>>=◌, ◌>>◌,
}
use canary.Target.{validate_url}
use canary.Auditor.{AuditConfig, Outside, Auditor}

-- `strings.ToUpper(strings.TrimSpace(request.Method))`, GET by default.
unfoldable pub method_of : AuditRequest → Text
method_of request =
    let method = to_upper (trim_space request.method) in
    if is_empty method then lit "GET" else method

-- `request.ExpectedStatus < 0 || request.ExpectedStatus > 599`
abbrev pub bad_status : ℤ → Bool
bad_status (pos n) = ltb 599 n
bad_status (negsuc n) = true

-- The tests of `validateRequest` in front of the target.
unfoldable pub check_request : (Text → Bool) → AuditConfig → AuditRequest → Result (Unit {0})
check_request json_valid config request =
    let method = method_of request in
    let has_body = not (is_empty request.body) in
    if not (method == lit "GET") && not (method == lit "POST")
    then err (lit "method must be GET or POST")
    else if ltb config.max_request_body_bytes (length request.body)
    then err (lit "body exceeds the 64 KiB limit")
    else if method == lit "GET" && has_body
    then err (lit "body is only supported with POST")
    else if has_body
        && (not (is_empty request.content_type)
            && not (request.content_type == lit "application/json"))
    then err (lit "content_type must be application/json")
    else if ltb config.max_expectation_bytes (length request.expectation)
    then err (lit "expectation exceeds the 2000-byte limit")
    else if bad_status request.expected_status
    then err (lit "expected_status must be a valid HTTP status code")
    else if has_body && not (json_valid request.body)
    then err (lit "body must be valid JSON")
    else if request.generate_repairs && not request.spec_review
    then err (lit "generate_repairs requires spec_review to be true")
    else ok tt

-- What `send` returns: the response, its body up to the limit, and whether more was cut off.
pub record Delivery : Type 0 where
  pub response : Response
  pub body : Text
  pub latency_ms : ℕ
  pub truncated : Bool

-- The content type of a request with a body.
abbrev pub body_type : AuditRequest → Text
body_type request =
    let type = trim_space request.content_type in
    if is_empty type then lit "application/json" else type

module _ (out : Outside) (auditor : Auditor) where
  unfoldable pub validate_request : AuditRequest → Action (Url × Text)
  validate_request request = do
    lift (check_request out.json_valid auditor.config request)
    url ← validate_url out.network auditor.target (trim_space request.url)
    pure (url, method_of request)

  -- The request to the target. The payment header is set if its value is not empty.
  unfoldable pub build_request : Url → Text → AuditRequest → Text × Text → Result OutgoingRequest
  build_request url method request (header, value) =
      let has_body = not (is_empty request.body) in
      let known = header == lit "PAYMENT-SIGNATURE" || header == lit "X-PAYMENT" in
      elim (out.new_request method url) [
        | err e ↦ err (lit "create target request: " ++ e)
        | ok _ ↦
            if has_body && not (body_type request == lit "application/json")
            then err (lit "only application/json request bodies are supported")
            else if not (is_empty value) && not known
            then err (lit "unsupported payment authorization header")
            else ok (record {
              method = method;
              url = url;
              body = request.body;
              user_agent = lit "Canary402/0.1 (+https://docs.obol.org/obol-stack/obol-stack)";
              accept = lit "application/json";
              content_type = if has_body then body_type request else [];
              payment = if is_empty value then none else some (header, value);
            })
      ]

  -- At most `max_response_bytes` of the body are kept.
  unfoldable pub receive : Response → ℕ → Result Delivery
  receive response latency =
      let limit = auditor.target.max_response_bytes in
      elim (response.read_body (limit + 1)) [
        | err e ↦ err (lit "read target response: " ++ e)
        | ok bytes ↦
            let truncated = ltb limit (length bytes) in
            ok (record {
              response = response;
              body = if truncated then take limit bytes else bytes;
              latency_ms = latency;
              truncated = truncated;
            })
      ]

  unfoldable pub send : Url → Text → AuditRequest → Text × Text → Action Delivery
  send url method request payment = do
    outgoing ← lift (build_request url method request payment)
    response ← perform (sent outgoing) (out.respond outgoing)
    latency ← observe (λ h. ok (out.latency_ms h))
    lift (receive response latency)
