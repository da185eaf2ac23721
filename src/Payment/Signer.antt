-- ===== src/Payment/Signer.antt =====
-- `RemoteSigner` of internal/canary/payment.go: a signer behind HTTP whose address is pinned. Its calls
-- are serialised by a mutex, so a run is a sequence of calls with the state between them.
pub mod Pinned
use canary.Base.{
  ℕ, Text, lit, text_eq, nat_eq, ltb, leb, ◌==◌, is_empty, decimal, trim_right_set, Result, ok, err,
  with_context, ◌>>=◌, ◌>>◌, refuse_if, if◌then◌else◌, not, ◌||◌, Option, none, some, List, [], ◌∷◌,
  ◌++◌,
}
use canary.Json.{Json}
use canary.Payment.Network.{is_address, is_signature}

-- What the signer answers over HTTP: the status and the first 64 KiB of its body.
pub record SignerReply : Type 0 where
  pub status_code : ℕ
  pub body : Text

-- A request to the signer.
pub record SignerCall : Type 0 where
  pub method : Text
  pub url : Text
  pub body : Option Text
  pub content_type : Text
  pub authorization : Option Text

pub record SignerApi : Type 0 where
  pub marshal : Json → Result Text
  pub new_request : Text → Result (Unit {0})
  pub send_call : SignerCall → Result SignerReply
  -- The decoders of the two responses: the field `keys`, and the field `signature`
  pub decode_keys : Text → Result (List Text)
  pub decode_signature : Text → Result Text
  -- `url.PathEscape`
  pub path_escape : Text → Text

-- The address is empty until it is known.
pub record RemoteSigner : Type 0 where
  pub base_url : Text
  pub token : Text
  pub address : Text

unfoldable pub new_remote_signer : Text → Text → RemoteSigner
new_remote_signer base_url token = record {
  base_url = trim_right_set (λ c. c == b'/') base_url;
  token = token;
  address = [];
}

encode_payload : SignerApi → Option Json → Result (Option Text)
encode_payload api none = ok none
encode_payload api (some payload) = do
  encoded ← with_context (lit "encode signer request: ") (api.marshal payload)
  ok (some encoded)

unfoldable pub call :
    SignerApi
    → RemoteSigner
    → Text
    → Text
    → Option Json
    → {A : Type 0} → (Text → Result A)
    → Result A
unfolding encode_payload
call api s method path payload decode = do
  body ← encode_payload api payload
  with_context (lit "create signer request: ") (api.new_request (s.base_url ++ path))
  reply ← with_context (lit "remote signer unavailable: ") (
      api.send_call (record {
        method = method;
        url = s.base_url ++ path;
        body = body;
        content_type = elim payload [ none ↦ [] | some p ↦ lit "application/json" ];
        authorization = if is_empty s.token then none else some (lit "Bearer " ++ s.token);
      }))
  refuse_if (ltb reply.status_code 200 || leb 300 reply.status_code)
      (lit "remote signer returned HTTP " ++ decimal reply.status_code)
  with_context (lit "decode remote signer response: ") (decode reply.body)

-- The first key, if it is an address.
first_address : List Text → Result Text
first_address [] = err (lit "remote signer returned no valid wallet address")
first_address (key ∷ keys) =
    if is_address key then ok key else err (lit "remote signer returned no valid wallet address")

pin : RemoteSigner → Result Text → Result Text × RemoteSigner
pin s (err e) = (err e, s)
pin s (ok key) = (ok key, record s { address = key })

unfoldable pub signer_address : SignerApi → RemoteSigner → Result Text × RemoteSigner
unfolding first_address pin
signer_address api s =
    if not (is_empty s.address)
    then (ok s.address, s)
    else pin s (do
      keys ← call api s (lit "GET") (lit "/api/v1/keys") none api.decode_keys
      first_address keys)

unfoldable pub sign_typed_data : SignerApi → RemoteSigner → Text → Json → Result Text
sign_typed_data api s address typed_data =
    if not (is_address address) then err (lit "invalid signer address") else do
      signature ←
          call api s (lit "POST")
            (lit "/api/v1/sign/" ++ (api.path_escape address ++ lit "/typed-data"))
            (some typed_data) api.decode_signature
      refuse_if (not (is_signature signature)) (lit "remote signer returned an invalid signature")
      ok signature

-- The addresses that a sequence of calls returns, each with the answers of its time.
unfoldable pub addresses : List SignerApi → RemoteSigner → List (Result Text)
addresses [] s = []
addresses (api ∷ apis) s = let (answer, s') = signer_address api s in answer ∷ addresses apis s'
