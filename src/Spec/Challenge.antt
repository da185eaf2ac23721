-- ===== src/Spec/Challenge.antt =====
-- The comparison of the challenge with the target: `analyzeChallenge`, `sameResource` and
-- `containsNestedKey` (internal/canary/specsmith.go).
use canary.Base.{
  ℕ, zero, suc, Text, lit, text_eq, nat_eq, ◌==◌, is_empty, trim_space, equal_fold, Result, ok, err,
  if◌then◌else◌, Bool, true, false, not, ◌&&◌, ◌||◌, Option, none, some,
}
use canary.Json.{
  Json, null, arr, obj, Items, nil, cons, Fields, end, field, Object, get, as_object, has_fields,
}
use canary.Report.{SpecReviewResult, error, warning, info}
use canary.Effect.{Url}
use canary.Payment.{PaymentChallenge}
use canary.Spec.{finding_of, with_finding}

-- `containsNestedKey`; the first argument counts the levels that are left, 7 at the call. The keys of a
-- decoded object are distinct, so that `typed[key]` is the value beside the key.
mutual
  nested_key : ℕ → Text → Json → Bool
  nested_key zero wanted value = false
  nested_key (suc fuel) wanted (obj fs) = nested_in_fields fuel wanted fs
  nested_key (suc fuel) wanted (arr items) = nested_in_items fuel wanted 64 items
  nested_key (suc fuel) wanted _ = false

  nested_in_fields : ℕ → Text → Fields → Bool
  nested_in_fields fuel wanted end = false
  nested_in_fields fuel wanted (field key value rest) =
      key == wanted || nested_key fuel wanted value || nested_in_fields fuel wanted rest

  nested_in_items : ℕ → Text → ℕ → Items → Bool
  nested_in_items fuel wanted zero items = false
  nested_in_items fuel wanted (suc limit) nil = false
  nested_in_items fuel wanted (suc limit) (cons item items) =
      nested_key fuel wanted item || nested_in_items fuel wanted limit items

unfoldable pub contains_nested_key : Json → Text → Bool
unfolding nested_key nested_in_fields nested_in_items
contains_nested_key value wanted = nested_key 7 wanted value

abbrev is_null : Json → Bool
is_null null = true
is_null _ = false

unfoldable pub canonical_resource_path : Url → Text
canonical_resource_path u = if is_empty u.escaped_path then lit "/" else u.escaped_path

unfoldable pub same_resource : Url → Url → Bool
same_resource expected advertised =
    equal_fold expected.scheme advertised.scheme
    && (equal_fold expected.host advertised.host
        && (canonical_resource_path expected == canonical_resource_path advertised
            && expected.raw_query == advertised.raw_query))

-- The parser of URLs and its printer, as in `analyzeChallenge` and `redactedURL`.
pub record UrlTools : Type 0 where
  pub parse_request_uri : Text → Result Url
  pub redact : Url → Text

-- `err != nil || resource.Scheme == "" || resource.Host == "" || resource.User != nil`
unfoldable pub usable_resource : Result Url → Option Url
usable_resource (err e) = none
usable_resource (ok u) = if is_empty u.scheme || is_empty u.host || u.has_user then none else some u

module _ (tools : UrlTools) (target : Url) where
  -- An advertised resource that was parsed.
  unfoldable pub compare_resource : SpecReviewResult → Url → SpecReviewResult
  compare_resource r resource =
      let matching = same_resource target resource in
      let r' = record r {
        challenge = record r.challenge {
          resource_url = tools.redact resource;
          resource_matches = matching;
        };
      } in
      if not (resource.scheme == lit "https") && target.scheme == lit "https"
      then with_finding r' (
          finding_of (lit "challenge_resource_insecure") error
            (lit "The x402 challenge advertises HTTP for an externally HTTPS resource.")
            (lit "Preserve X-Forwarded-Proto and generate an https:// resource URL."))
      else if not matching
      then with_finding r' (
          finding_of (lit "challenge_resource_mismatch") error
            (lit "The x402 challenge resource does not exactly match the requested URL.")
            (lit
              "Build the challenge from the original external URL without rewriting its host, path, or query."))
      else r'

  unfoldable pub analyze_resource : SpecReviewResult → Text → SpecReviewResult
  analyze_resource r advertised =
      if is_empty advertised
      then with_finding r (
          finding_of (lit "challenge_resource_missing") warning
            (lit "The x402 challenge does not advertise a resource URL.")
            (lit "Include the exact externally requested HTTPS resource URL in the challenge."))
      else elim (usable_resource (tools.parse_request_uri advertised)) [
        | none ↦ with_finding r (
            finding_of (lit "challenge_resource_invalid") error
              (lit "The x402 challenge advertises an invalid resource URL.")
              (lit "Advertise the exact public HTTPS resource URL."))
        | some resource ↦ compare_resource r resource
      ]

abbrev object_value : Object → Json
object_value none = null
object_value (some fs) = obj fs

-- `info != nil && info[key] != nil || containsNestedKey(bazaar, schema, 0)`
unfoldable pub has_schema : Object → Text → Text → Bool
has_schema bazaar key schema =
    let described = as_object (get bazaar (lit "info")) in
    not (is_null (get described key)) || contains_nested_key (object_value bazaar) schema

-- The extension with metadata, where it is a map that is not empty.
unfoldable pub bazaar_of : PaymentChallenge → Object
bazaar_of challenge =
    let bazaar = as_object (get challenge.extensions (lit "bazaar")) in
    if has_fields bazaar then bazaar else none

unfoldable pub is_post : Text → Bool
is_post method = method == lit "POST"

unfoldable pub described_bazaar : SpecReviewResult → Object → Text → SpecReviewResult
described_bazaar r bazaar method =
    let input = has_schema bazaar (lit "input") (lit "inputSchema") in
    let output = has_schema bazaar (lit "output") (lit "outputSchema") in
    let r' = record r {
      challenge = record r.challenge {
        bazaar_extension = true;
        bazaar_input_schema = input;
        bazaar_output_schema = output;
      };
    } in
    let r'' =
      if is_post method && not input
      then with_finding r' (
          finding_of (lit "bazaar_input_missing") warning
            (lit "Bazaar metadata does not describe a POST input.")
            (lit
              "Declare bodyType=json, inputSchema, and a validating non-sensitive input example."))
      else r' in
    if not output
    then with_finding r'' (
        finding_of (lit "bazaar_output_missing") info
          (lit "Bazaar metadata does not describe the successful output.")
          (lit "Declare a redacted output schema or example."))
    else r''

unfoldable pub analyze_bazaar : SpecReviewResult → Object → Text → SpecReviewResult
analyze_bazaar r none method =
    with_finding (record r { challenge = record r.challenge { bazaar_extension = false } })
      (finding_of (lit "bazaar_extension_missing") warning
        (lit "The challenge has no x402 Bazaar discovery extension.")
        (lit "Declare Bazaar metadata with input/output schemas and a non-sensitive example."))
analyze_bazaar r (some fs) method = described_bazaar r (some fs) method

unfoldable pub analyze_challenge :
    UrlTools → Url → SpecReviewResult → PaymentChallenge → Text → SpecReviewResult
unfolding analyze_resource compare_resource usable_resource analyze_bazaar described_bazaar
    has_schema bazaar_of is_post
analyze_challenge tools target r challenge method =
    analyze_bazaar (analyze_resource tools target r (trim_space challenge.resource_url))
      (bazaar_of challenge) method
