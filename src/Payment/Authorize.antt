-- ===== src/Payment/Authorize.antt =====
-- `PaymentAuthorizer` (internal/canary/payment.go): its guards, the typed data that it has signed,
-- and the header that it builds. The signer and the encoders of encoding/json and encoding/base64
-- are parameters.
pub mod Guards
pub mod Message
use canary.Base.{
  ℕ, ◌+◌, ◌-◌, ◌/◌, ◌%◌, Text, lit, text_eq, is_empty, lookup, ltb, ◌==◌, nat_eq, equal_fold, quote,
  decimal, format_int, Result, ok, err, with_context, if◌then◌else◌, not, ◌&&◌, ◌||◌, Option, none,
  some, [], ◌∷◌, ◌++◌,
}
use canary.Json.{
  Json, null, num, str, arr, obj, Items, nil, cons, Fields, end, field, Object, get?, get,
  as_object,
}
use canary.Effect.{History, Action, ◌>>=◌, pure, lift, perform, observe, asked_address, signed}
use canary.Payment.{PaymentRequirement, PaymentPolicy, transfer_method}
use canary.Payment.Network.{base, normalize_network, is_address}
use canary.Payment.Amount.{positive_amount}
use canary.Payment.Select.{allowed_asset, is_supported_transfer}

pub record TypedDataSigner : Type 0 where
  pub address : History → Result Text
  pub sign_typed_data : Text → Json → History → Result Text

pub record Platform : Type 0 where
  -- 32 bytes of crypto/rand
  pub random : History → Result Text
  pub now : History → ℕ
  pub marshal : Json → Result Text
  pub encode_base64 : Text → Text

pub record PaymentAuthorization : Type 0 where
  pub header : Text
  pub payer : Text

-- `max` is the positive cap that the constructor reads.
pub record PaymentAuthorizer : Type 0 where
  pub policy : PaymentPolicy
  pub max : ℕ

unfoldable pub new_payment_authorizer : PaymentPolicy → Result PaymentAuthorizer
new_payment_authorizer policy = elim (positive_amount policy.max_atomic_amount) [
  | none ↦ err (lit "invalid operator payment cap")
  | some maximum ↦ ok (record { policy = policy; max = maximum })
]

-- The guards of `Authorize` behind the network, in their order.
unfoldable pub check_terms : PaymentAuthorizer → PaymentRequirement → Text → Result (Unit {0})
check_terms a r network =
    let allowed = allowed_asset a.policy network in
    elim (positive_amount r.amount) [
      | none ↦ err (lit "payment amount exceeds the operator cap")
      | some amount ↦
          if ltb a.max amount
          then err (lit "payment amount exceeds the operator cap")
          else if not (r.scheme == lit "exact")
          then err (lit "unsupported payment scheme")
          else if not (is_supported_transfer (transfer_method r))
          then err (lit "unsupported asset transfer method " ++ quote (transfer_method r))
          else if not (is_address r.asset) || not (is_address r.pay_to)
          then err (lit "invalid payment address")
          else if not (is_empty allowed) && not (equal_fold allowed r.asset)
          then err (lit "payment asset is not allowed")
          else ok tt
    ]

-- All guards of `Authorize`: the network and its chain id, if the requirement passes.
unfoldable pub check_requirement : PaymentAuthorizer → PaymentRequirement → Result (Text × ℕ)
check_requirement a r = elim (normalize_network r.network) [
  | err e ↦ err e
  | ok (network, chain_id) ↦ elim (lookup network a.policy.allowed_networks) [
    | none ↦ err (lit "payment network is not allowed")
    | some allowed_id ↦
        if not (allowed_id == chain_id)
        then err (lit "payment network is not allowed")
        else elim (check_terms a r network) [ err e ↦ err e | ok _ ↦ ok (network, chain_id) ]
  ]
]

-- The default domain by network; an advertised one needs a name and a version.
default_domain : Text → Text × Text
default_domain network =
    if network == base then (lit "USD Coin", lit "2") else (lit "USDC", lit "2")

advertised_domain : Json → Json → Option (Text × Text)
advertised_domain (str name) (str version) =
    if not (is_empty name) && not (is_empty version) then some (name, version) else none
advertised_domain _ _ = none

unfoldable pub eip3009_domain : PaymentRequirement → Text → Text × Text
unfolding default_domain advertised_domain
eip3009_domain r network =
    let advertised = as_object (get r.extra (lit "eip712Domain")) in
    elim (advertised_domain (get advertised (lit "name")) (get advertised (lit "version"))) [
      | some domain ↦ domain
      | none ↦ default_domain network
    ]

-- Only the `info` member of an extension is echoed.
abbrev pub one_field : Text → Json → Json
one_field k v = obj (field k v end)

unfoldable pub echo_fields : Fields → Fields
echo_fields end = end
echo_fields (field name raw rest) = elim (get? (as_object raw) (lit "info")) [
  | none ↦ echo_fields rest
  | some info ↦ field name (one_field (lit "info") info) (echo_fields rest)
]

unfoldable pub echo_extension_info : Object → Fields
unfolding echo_fields
echo_extension_info none = end
echo_extension_info (some fs) = echo_fields fs

hex_digit : ℕ → ℕ
hex_digit d = if ltb d 10 then b'0' + d else b'a' + (d - 10)

-- `hex.EncodeToString`
unfoldable pub hex_encode : Text → Text
unfolding hex_digit
hex_encode [] = []
hex_encode (c ∷ s) = hex_digit (c / 16) ∷ hex_digit (c % 16) ∷ hex_encode s

-- The members of an authorization: who pays whom how much, and when.
pub record Transfer : Type 0 where
  pub payer : Text
  pub pay_to : Text
  pub value : Text
  pub valid_before : Text
  pub nonce : Text

authorization_fields : Transfer → Fields
authorization_fields t = field (lit "from") (str t.payer) (
    field (lit "to") (str t.pay_to) (
      field (lit "value") (str t.value) (
        field (lit "validAfter") (str (lit "0")) (
          field (lit "validBefore") (str t.valid_before) (field (lit "nonce") (str t.nonce) end)))))

typed_member : Text → Text → Json
typed_member name type = obj (field (lit "name") (str name) (field (lit "type") (str type) end))

domain_members : Items
domain_members = cons (typed_member (lit "name") (lit "string")) (
    cons (typed_member (lit "version") (lit "string")) (
      cons (typed_member (lit "chainId") (lit "uint256"))
        (cons (typed_member (lit "verifyingContract") (lit "address")) nil)))

transfer_members : Items
transfer_members = cons (typed_member (lit "from") (lit "address")) (
    cons (typed_member (lit "to") (lit "address")) (
      cons (typed_member (lit "value") (lit "uint256")) (
        cons (typed_member (lit "validAfter") (lit "uint256")) (
          cons (typed_member (lit "validBefore") (lit "uint256"))
            (cons (typed_member (lit "nonce") (lit "bytes32")) nil)))))

-- The EIP-712 message that the wallet signs.
unfoldable pub typed_data : PaymentRequirement → Text → ℕ → Transfer → Json
unfolding authorization_fields typed_member domain_members transfer_members
typed_data r network chain_id t =
    let (domain_name, domain_version) = eip3009_domain r network in
    obj (
      field (lit "types")
        (obj (
          field (lit "EIP712Domain") (arr domain_members)
            (field (lit "TransferWithAuthorization") (arr transfer_members) end)))
        (field (lit "primaryType") (str (lit "TransferWithAuthorization")) (
          field (lit "domain")
            (obj (
              field (lit "name") (str domain_name) (
                field (lit "version") (str domain_version) (
                  field (lit "chainId") (num (decimal chain_id))
                    (field (lit "verifyingContract") (str r.asset) end)))))
            (field (lit "message") (obj (authorization_fields t)) end))))

-- A nil map is encoded as null.
abbrev object_json : Object → Json
object_json none = null
object_json (some fs) = obj fs

accepted_terms : PaymentRequirement → Json
accepted_terms r = obj (
    field (lit "scheme") (str r.scheme) (
      field (lit "network") (str r.network) (
        field (lit "amount") (str r.amount) (
          field (lit "asset") (str r.asset) (
            field (lit "payTo") (str r.pay_to) (
              field (lit "maxTimeoutSeconds") (num (format_int r.max_timeout_seconds))
                (field (lit "extra") (object_json r.extra) end)))))))

-- `envelope["extensions"]` is set only if something is echoed.
abbrev extensions_member : Fields → Fields
extensions_member end = end
extensions_member (field k v fs) = field (lit "extensions") (obj (field k v fs)) end

unfoldable pub envelope : PaymentRequirement → Transfer → Text → Object → Json
unfolding authorization_fields accepted_terms
envelope r t signature extensions = obj (
    field (lit "x402Version") (num (lit "2")) (
      field (lit "accepted") (accepted_terms r) (
        field (lit "payload")
          (obj (
            field (lit "signature") (str signature)
              (field (lit "authorization") (obj (authorization_fields t)) end)))
          (extensions_member (echo_extension_info extensions)))))

module _ (signer : TypedDataSigner) (platform : Platform) where
  -- `time.Now().Add(ttl).Unix()` in decimal.
  abbrev pub deadline : PaymentAuthorizer → History → Text
  deadline a h = decimal (platform.now h + a.policy.authorization_ttl)

  abbrev pub transfer_of : PaymentAuthorizer → PaymentRequirement → Text → Text → History → Transfer
  transfer_of a r payer random h = record {
    payer = payer;
    pay_to = r.pay_to;
    value = r.amount;
    valid_before = deadline a h;
    nonce = lit "0x" ++ hex_encode random;
  }

  -- The signature, and the header that carries it.
  unfoldable pub sign_transfer :
      PaymentRequirement → Object → Text → ℕ → Transfer → Action PaymentAuthorization
  sign_transfer r extensions network chain_id t = do
    let message = typed_data r network chain_id t
    signature ← perform (signed t.payer message) (signer.sign_typed_data t.payer message)
    encoded ← lift (
        with_context (lit "encode payment authorization: ")
          (platform.marshal (envelope r t signature extensions)))
    pure (record { header = platform.encode_base64 encoded; payer = t.payer })

  unfoldable pub authorize :
      PaymentAuthorizer → PaymentRequirement → Object → Action PaymentAuthorization
  authorize a r extensions = do
    (network, chain_id) ← lift (check_requirement a r)
    payer ← perform asked_address signer.address
    random ← observe (λ h. with_context (lit "generate payment nonce: ") (platform.random h))
    t ← observe (λ h. ok (transfer_of a r payer random h))
    sign_transfer r extensions network chain_id t
