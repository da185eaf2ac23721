-- ===== src/Payment/Challenge.antt =====
-- `ParsePaymentChallenge` and `ParsePaymentChallengeResponse` (internal/canary/payment.go). The
-- decoders of encoding/json and encoding/base64 are parameters.
pub mod Accepts
use canary.Base.{
  ℕ, ◌+◌, Text, lit, text_eq, nat_eq, has_prefix, trim_space, is_empty, leb, ◌==◌, ℤ, pos, negsuc,
  decimal, format_int, Result, ok, err, ◌>>=◌, ◌>>◌, refuse_if, if◌then◌else◌, Bool, false, not,
  ◌&&◌, Option, none, some, List, [], ◌∷◌, ◌++◌,
}
use canary.Json.{Json, str, obj, Object, get?, get, as_object, string_value}
use canary.Evidence.{truncate_text}
use canary.Payment.{PaymentRequirement, PaymentChallenge}
use canary.Payment.Amount.{atomic_string, integer_value}

-- The struct that the body of a challenge is decoded into.
pub record RawChallenge : Type 0 where
  pub x402_version : ℤ
  pub resource : Json
  pub accepts : List Object
  pub extensions : Object

pub record Decoders : Type 0 where
  -- encoding/json into `RawChallenge`, with `UseNumber`
  pub decode_challenge : Text → Option RawChallenge
  -- The `DecodeString` of base64's StdEncoding, RawStdEncoding, URLEncoding and RawURLEncoding.
  pub base64_std : Text → Option Text
  pub base64_raw_std : Text → Option Text
  pub base64_url : Text → Option Text
  pub base64_raw_url : Text → Option Text

unfoldable pub payment_resource_url : Json → Text
payment_resource_url (str url) = truncate_text url 2048
payment_resource_url (obj fs) = truncate_text (string_value (get (some fs) (lit "url"))) 2048
payment_resource_url _ = []

-- The amount of an option: `amount`, else `maxAmountRequired`.
option_amount : ℕ → Object → Result Text
option_amount index item = elim (atomic_string (get item (lit "amount"))) [
  | ok amount ↦ ok amount
  | err _ ↦ elim (atomic_string (get item (lit "maxAmountRequired"))) [
    | ok amount ↦ ok amount
    | err _ ↦
        err (lit "payment option " ++ (decimal (index + 1) ++ lit " has no valid atomic amount"))
  ]
]

-- `parsed < 1 || parsed > 86_400`, negated.
abbrev pub in_timeout_range : ℤ → Bool
in_timeout_range (pos n) = leb 1 n && leb n 86400
in_timeout_range (negsuc n) = false

bad_timeout : ℕ → Text
bad_timeout index =
    lit "payment option " ++ (decimal (index + 1) ++ lit " has invalid maxTimeoutSeconds")

option_timeout : ℕ → Object → Result ℤ
option_timeout index item = elim (get? item (lit "maxTimeoutSeconds")) [
  | none ↦ ok (pos 60)
  | some value ↦ elim (integer_value value) [
    | err _ ↦ err (bad_timeout index)
    | ok parsed ↦ if in_timeout_range parsed then ok parsed else err (bad_timeout index)
  ]
]

-- One round of the loop over `raw.Accepts`.
unfoldable pub parse_option : ℕ → Object → Result PaymentRequirement
unfolding option_amount option_timeout bad_timeout
parse_option index item = do
  amount ← option_amount index item
  timeout ← option_timeout index item
  ok (record {
    scheme = string_value (get item (lit "scheme"));
    network = string_value (get item (lit "network"));
    amount = amount;
    asset = string_value (get item (lit "asset"));
    pay_to = string_value (get item (lit "payTo"));
    max_timeout_seconds = timeout;
    extra = as_object (get item (lit "extra"));
  })

unfoldable pub parse_options : ℕ → List Object → Result (List PaymentRequirement)
parse_options index [] = ok []
parse_options index (item ∷ items) = do
  option ← parse_option index item
  options ← parse_options (index + 1) items
  ok (option ∷ options)

abbrev pub is_two : ℤ → Bool
is_two (pos n) = n == 2
is_two (negsuc n) = false

-- The part of `ParsePaymentChallenge` behind the decoder.
unfoldable pub read_challenge : RawChallenge → Result PaymentChallenge
read_challenge raw = do
  refuse_if (not (is_two raw.x402_version)) (
      lit "unsupported x402 version "
      ++ (format_int raw.x402_version ++ lit "; Canary402 currently supports v2"))
  refuse_if (is_empty raw.accepts) (lit "402 response has no payment options")
  accepts ← parse_options 0 raw.accepts
  ok (record {
    version = raw.x402_version;
    resource_url = payment_resource_url raw.resource;
    accepts = accepts;
    extensions = raw.extensions;
  })

module _ (d : Decoders) where
  unfoldable pub parse_payment_challenge : Text → Result PaymentChallenge
  parse_payment_challenge body = elim (d.decode_challenge body) [
    | none ↦ err (lit "402 response is not valid JSON")
    | some raw ↦ read_challenge raw
  ]

  first_decoded : List (Text → Option Text) → Text → Result Text
  first_decoded [] value = err (lit "invalid base64")
  first_decoded (decode ∷ rest) value = elim (decode value) [
    | some decoded ↦ ok decoded
    | none ↦ first_decoded rest value
  ]

  unfoldable pub decode_payment_header : Text → Result Text
  unfolding first_decoded
  decode_payment_header value =
      if has_prefix (lit "{") (trim_space value)
      then ok value
      else first_decoded (d.base64_std ∷ d.base64_raw_std ∷ d.base64_url ∷ d.base64_raw_url ∷ [])
          value

  -- The challenge, its transport and the name of the header that answers it.
  unfoldable pub parse_payment_challenge_response :
      (Text → Text) → Text → Result (PaymentChallenge × Text × Text)
  parse_payment_challenge_response headers body =
      let encoded = trim_space (headers (lit "PAYMENT-REQUIRED")) in
      if not (is_empty encoded)
      then elim (decode_payment_header encoded) [
        | err _ ↦ err (lit "PAYMENT-REQUIRED header is not valid base64 JSON")
        | ok decoded ↦ do
          challenge ← parse_payment_challenge decoded
          ok (challenge, lit "PAYMENT-REQUIRED", lit "PAYMENT-SIGNATURE")
      ]
      else do
        challenge ← parse_payment_challenge body
        ok (challenge, lit "json-body", lit "X-PAYMENT")
