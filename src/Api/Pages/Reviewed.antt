-- ===== src/Api/Pages/Reviewed.antt =====
-- The document that `openapi` (internal/canary/httpapi.go) serves, under the program's own review.
use canary.Base.{
  ℕ_discrete, Text, lit, text_eq, split, replace_pair, has_prefix, has_suffix, sort_texts, to_lower,
  trim_space, ◌≡◌, refl, true, false,
}
use canary.Json.{get, get?, keys}
use canary.Report.{SpecReviewResult, SpecOperation}
use canary.Effect.{Url}
use canary.Spec.{with_finding}
use canary.Spec.Paths.{find_open_api_path}
use canary.Spec.Refs.{local_target, resolve_object}
use canary.Spec.Schemas.{
  request_body_schema, successful_response_schema, is_concrete_schema, has_example, json_media,
}
use canary.Spec.Analysis.{analyze_open_api, safe_spec_text}
use canary.Evidence.{truncate_text, preview, valid_utf8, drop_controls}
use canary.Api.Pages.{service_document}

-- The operation is found at its path, its request schema is concrete, and it has no response schema.
pub record IsReviewed (o : SpecOperation) : Type 0 where
  pub found : o.found ≡ true
  pub path : o.open_api_path ≡ lit "/audit"
  pub request_schema : o.request_schema ≡ true
  pub concrete_request_schema : o.concrete_request_schema ≡ true
  pub response_schema : o.response_schema ≡ false

-- What the analysis says of `POST /audit` in the document that the program serves.
abbrev pub reviewed : Text → Url → SpecReviewResult → SpecOperation
reviewed version target r =
    (analyze_open_api (service_document version) (record target { path = lit "/audit" })
      (lit "POST") r).operation

-- In the document that the program serves of itself, of whatever version, its own review finds the
-- operation `POST /audit` of whatever host, with a request schema that is concrete, which it has to
-- reach through a reference, and without a response schema.
pub reviewed-IsReviewed :
    (version : Text) (target : Url) (r : SpecReviewResult) → IsReviewed (reviewed version target r)
unfolding analyze_open_api service_document with_finding find_open_api_path request_body_schema
    successful_response_schema is_concrete_schema has_example local_target lit text_eq ℕ_discrete
    get get? keys split replace_pair has_prefix has_suffix sort_texts to_lower json_media
    resolve_object safe_spec_text truncate_text trim_space preview valid_utf8 drop_controls
reviewed-IsReviewed version target r = record {
  found = refl;
  path = refl;
  request_schema = refl;
  concrete_request_schema = refl;
  response_schema = refl;
}
