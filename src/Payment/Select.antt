-- ===== src/Payment/Select.antt =====
-- `SelectPayment` and `uniqueStrings` (internal/canary/payment.go).
pub mod Safety
pub mod Unique
pub mod Caps
pub mod Chosen
use canary.Base.{
  ℕ, Text, lit, text_eq, trim_space, to_lower, is_empty, contains, lookup, join, ltb, ◌==◌, decimal,
  Result, ok, err, ◌>>=◌, ◌>>◌, refuse_if, if◌then◌else◌, Bool, true, false, not, ◌&&◌, ◌||◌, none,
  some, List, [], ◌∷◌, ◌++◌,
}
use canary.Report.{AuditRequest}
use canary.Payment.{PaymentRequirement, PaymentPolicy, transfer_method}
use canary.Payment.Network.{normalize_network, is_address}
use canary.Payment.Amount.{positive_amount}

-- What the request and the operator ask of an option; an empty text asks nothing.
pub record Wanted : Type 0 where
  pub network : Text
  pub asset : Text
  pub request_max : ℕ
  pub system_max : ℕ

-- One round of the loop: `continue`, a reason, or a match.
pub data Choice : Type 0 where
  passed_over : Choice
  rejected : Text → Choice
  matched : PaymentRequirement → Choice

abbrev pub has_key : Text → List (Text × ℕ) → Bool
has_key k m = elim (lookup k m) [ none ↦ false | some _ ↦ true ]

-- `policy.AllowedAssets[network]`: empty where the network has none.
abbrev pub allowed_asset : PaymentPolicy → Text → Text
allowed_asset policy network = elim (lookup network policy.allowed_assets) [
  | none ↦ []
  | some asset ↦ asset
]

abbrev pub is_supported_transfer : Text → Bool
is_supported_transfer transfer = is_empty transfer || transfer == lit "eip3009"

module _ (policy : PaymentPolicy) (wanted : Wanted) where
  -- The tests behind the assignment `requirement.Network = network`.
  unfoldable pub consider_price : PaymentRequirement → Choice
  consider_price r = elim (positive_amount r.amount) [
    | none ↦ rejected (lit "payment amount is invalid")
    | some amount ↦
        if ltb wanted.request_max amount || ltb wanted.system_max amount
        then rejected (lit "payment amount exceeds the approved cap")
        else matched r
  ]

  unfoldable pub consider_asset : PaymentRequirement → Choice
  consider_asset r =
      let asset = to_lower r.asset in
      let allowed = allowed_asset policy r.network in
      if not (is_address r.asset) || not (is_address r.pay_to)
      then rejected (lit "payment option contains an invalid address")
      else if not (is_empty wanted.asset) && not (asset == wanted.asset)
      then passed_over
      else if not (is_empty allowed) && not (asset == to_lower allowed)
      then rejected (lit "asset is not the configured USDC contract for " ++ r.network)
      else consider_price r

  unfoldable pub consider_terms : PaymentRequirement → Choice
  consider_terms r =
      if not (has_key r.network policy.allowed_networks)
      then rejected (lit "network " ++ (r.network ++ lit " is not allowed"))
      else if not (is_empty wanted.network) && not (r.network == wanted.network)
      then passed_over
      else if not (r.scheme == lit "exact")
      then rejected (lit "only the exact payment scheme is supported")
      else if not (is_supported_transfer (transfer_method r))
      then rejected (lit "payment method " ++ (transfer_method r ++ lit " is not yet supported"))
      else consider_asset r

  unfoldable pub consider : PaymentRequirement → Choice
  consider requirement = elim (normalize_network requirement.network) [
    | err e ↦ rejected e
    | ok (network, _) ↦ consider_terms (record requirement { network = network })
  ]

-- The loop; `matches` and `reasons` in the order of the options.
abbrev pub add_match : Choice → List PaymentRequirement → List PaymentRequirement
add_match (matched r) matches = r ∷ matches
add_match _ matches = matches

abbrev pub add_reason : Choice → List Text → List Text
add_reason (rejected e) reasons = e ∷ reasons
add_reason _ reasons = reasons

module _ (policy : PaymentPolicy) (wanted : Wanted) where
  unfoldable pub matches : List PaymentRequirement → List PaymentRequirement
  matches [] = []
  matches (r ∷ rs) = add_match (consider policy wanted r) (matches rs)

  unfoldable pub reasons : List PaymentRequirement → List Text
  reasons [] = []
  reasons (r ∷ rs) = add_reason (consider policy wanted r) (reasons rs)

-- `seen` holds the values met so far.
unique_from : List Text → List Text → List Text
unique_from seen [] = []
unique_from seen (value ∷ values) = elim (contains seen value) [
  | true ↦ unique_from seen values
  | false ↦ value ∷ unique_from (value ∷ seen) values
]

unfoldable pub unique_strings : List Text → List Text
unfolding unique_from
unique_strings = unique_from []

-- What follows the loop.
unfoldable pub conclude : List PaymentRequirement → List Text → Result PaymentRequirement
unfolding unique_strings
conclude [] [] = err (lit "no payment option matches the requested network or asset")
conclude [] (reason ∷ reasons) =
    err (lit "no safe payment option: " ++ join (lit "; ") (unique_strings (reason ∷ reasons)))
conclude (r ∷ []) reasons = ok r
conclude (r ∷ r' ∷ rs) reasons =
    err (lit "multiple safe payment options match; specify payment_network and payment_asset")

positive_or : Text → Text → Result ℕ
positive_or text message = elim (positive_amount (trim_space text)) [
  | none ↦ err message
  | some amount ↦ ok amount
]

unfoldable pub wanted_network : Text → Result Text
wanted_network text =
    if is_empty (trim_space text)
    then ok []
    else do (network, _) ← normalize_network text; ok network

unfoldable pub wanted_of : AuditRequest → PaymentPolicy → Result Wanted
unfolding positive_or wanted_network
wanted_of request policy = do
  request_max ←
      positive_or request.max_payment_atomic
        (lit "max_payment_atomic must be a positive integer when pay is true")
  system_max ← positive_or policy.max_atomic_amount (lit "operator payment cap is invalid")
  refuse_if (ltb system_max request_max) (
      lit "requested payment cap exceeds the operator limit of "
      ++ (decimal system_max ++ lit " atomic units"))
  network ← wanted_network request.payment_network
  ok (record {
    network = network;
    asset = to_lower (trim_space request.payment_asset);
    request_max = request_max;
    system_max = system_max;
  })

unfoldable pub select_payment :
    List PaymentRequirement → AuditRequest → PaymentPolicy → Result PaymentRequirement
select_payment requirements request policy = do
  wanted ← wanted_of request policy
  conclude (matches policy wanted requirements) (reasons policy wanted requirements)
