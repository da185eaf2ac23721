-- ===== src/Spec/Documents.antt =====
-- The documents of a review: `fetchSpecDocument` and `decodeJSONObject`
-- (internal/canary/specsmith.go).
pub mod Fetching
use canary.Base.{
  ℕ, zero, suc, ◌+◌, Text, lit, text_eq, nat_eq, length, take, is_empty, ltb, ◌==◌, ◌*◌, Result, ok,
  err, if◌then◌else◌, Bool, true, false, not, Option, none, some, List, [], ◌∷◌,
}
use canary.Json.{Json, obj, Fields}
use canary.Report.{SpecDocument, error}
use canary.Evidence.{safe_error}
use canary.Effect.{Url, OutgoingRequest, Response, History, sent}
use canary.Target.{validate_url}
use canary.Auditor.{Outside, Auditor, media_type, redacted_url}

-- `maxSpecDocumentBytes`, 256 KiB
abbrev pub max_spec_document_bytes : ℕ
max_spec_document_bytes = 256 * 1024

-- `fetchedSpecDocument`
pub record Fetched : Type 0 where
  pub report : SpecDocument
  pub body : Text

-- What one call of a decoder of encoding/json finds: a value, whose objects have distinct keys, and what
-- is behind it, or `io.EOF`, or an
-- error.
pub data Decoded : Type 0 where
  value : Json → Text → Decoded
  at_end : Decoded
  malformed : Decoded

-- The struct of `analyzeRegistration`: `active`, the values of `registrations`, and the endpoints of
-- `services`.
pub record Registration : Type 0 where
  pub active : Option Bool
  pub agent_ids : List Json
  pub endpoints : List Text

-- The decoders of encoding/json that a review calls.
pub record SpecDecoders : Type 0 where
  pub decode : Text → Decoded
  pub decode_registration : Text → Option Registration

abbrev blank : Text → Text → SpecDocument
blank kind url = record {
  kind = kind;
  url = url;
  status_code = 0;
  content_type = [];
  body_bytes = 0;
  body_sha256 = [];
  available = false;
  valid = false;
  response_truncated = false;
  error = [];
}

abbrev failed : SpecDocument → Text → Fetched
failed report e = record { report = record report { error = e }; body = [] }

abbrev pub discovery_request : Url → OutgoingRequest
discovery_request url = record {
  method = lit "GET";
  url = url;
  body = [];
  user_agent = lit "Canary402/0.2 (+https://docs.obol.org/obol-stack/obol-stack)";
  accept = lit "application/json, text/markdown;q=0.8, text/plain;q=0.5";
  content_type = [];
  payment = none;
}

module _ (out : Outside) (auditor : Auditor) where
  -- Behind the body: at most the limit is kept.
  kept_body : SpecDocument → ℕ → Text → Fetched
  kept_body report status bytes =
      let truncated = ltb max_spec_document_bytes (length bytes) in
      let body = if truncated then take max_spec_document_bytes bytes else bytes in
      record {
        report = record report {
          response_truncated = truncated;
          body_bytes = length body;
          body_sha256 = if is_empty body then [] else out.sha256 body;
          available = status == 200;
        };
        body = body;
      }

  -- Behind the response.
  received : SpecDocument → Response → Fetched
  received report response =
      let report' = record report {
        status_code = response.status_code;
        content_type = media_type out (response.headers (lit "Content-Type"));
      } in
      elim (response.read_body (max_spec_document_bytes + 1)) [
        | err _ ↦ failed report' (lit "could not read discovery document")
        | ok bytes ↦ kept_body report' response.status_code bytes
      ]

  answered : SpecDocument → History → Result Response → Fetched × History
  answered report h (err e) = (failed report (safe_error e), h)
  answered report h (ok response) = (received report response, h)

  requested : SpecDocument → Url → History → Result (Unit {0}) → Fetched × History
  requested report url h (err _) = (failed report (lit "could not create discovery request"), h)
  requested report url h (ok _) =
      answered report (sent (discovery_request url) ∷ h) (out.respond (discovery_request url) h)

  -- Behind the validation of the URL.
  located : SpecDocument → Result Url × History → Fetched × History
  located report (err e, h) = (failed report (safe_error e), h)
  located report (ok url, h) = requested report url h (out.new_request (lit "GET") url)

  unfoldable pub fetch_spec_document : Url → Text → History → Fetched × History
  unfolding located requested answered received kept_body
  fetch_spec_document target kind h =
      located (blank kind (redacted_url out target))
        (validate_url out.network auditor.target (out.url_string target) h)

-- A path of the origin of the target: `origin.ResolveReference(&url.URL{Path: path})`.
unfoldable pub document_url : Url → Text → Url
document_url target path = record target {
  has_user = false;
  path = path;
  escaped_path = path;
  raw_query = [];
  fragment = [];
}

-- What must be behind the object: nothing but white space.
only_object : Json → Decoded → Option Fields
only_object (obj fs) at_end = some fs
only_object _ _ = none

-- Null decodes to the nil map, which is an error.
unfoldable pub decode_json_object : SpecDecoders → Text → Option Fields
unfolding only_object
decode_json_object d body = elim (d.decode body) [
  | at_end ↦ none
  | malformed ↦ none
  | value v rest ↦ only_object v (d.decode rest)
]

-- `s.result.Documents[index].Valid = true`
unfoldable pub set_valid : ℕ → List SpecDocument → List SpecDocument
set_valid index [] = []
set_valid zero (document ∷ documents) = record document { valid = true } ∷ documents
set_valid (suc index) (document ∷ documents) = document ∷ set_valid index documents
