-- ===== src/Payment/Authorize/Message.antt =====
-- What the message says that `Authorize` (internal/canary/payment.go) has signed.
use canary.Base.{
  ℕ, ℕ_discrete, Text, lit, text_eq, lookup, decimal, nat_eq, ok, Result-cases, Option-cases, ◌≡◌,
  refl, arith, some, inl, inr,
}
use canary.Json.{Json, num, str, get, as_object}
use canary.Payment.{PaymentRequirement, PaymentPolicy}
use canary.Payment.Network.{normalize_network}
use canary.Payment.Authorize.{PaymentAuthorizer, Transfer, check_requirement, typed_data}

-- `message[name][key]`
abbrev pub member : Json → Text → Text → Json
member message name key = get (as_object (get (as_object message) name)) key

-- An EIP-3009 transfer of the exact amount of the option from the payer to its payee, in its asset and on
-- the chain of its network, until a given time.
pub record Pays (policy : PaymentPolicy) (option : PaymentRequirement) (payer : Text)
    (valid_before : Text) (message : Json) : Type 0 where
  pub network : Text
  pub chain_id : ℕ
  pub named : normalize_network option.network ≡ ok (network, chain_id)
  pub allowed : lookup network policy.allowed_networks ≡ some chain_id
  pub kind : get (as_object message) (lit "primaryType") ≡ str (lit "TransferWithAuthorization")
  pub on_chain : member message (lit "domain") (lit "chainId") ≡ num (decimal chain_id)
  pub in_asset : member message (lit "domain") (lit "verifyingContract") ≡ str option.asset
  pub from_payer : member message (lit "message") (lit "from") ≡ str payer
  pub to_payee : member message (lit "message") (lit "to") ≡ str option.pay_to
  pub of_amount : member message (lit "message") (lit "value") ≡ str option.amount
  pub until : member message (lit "message") (lit "validBefore") ≡ str valid_before

-- The guards of `Authorize` give the normal form of the network and its allowed chain id.
check_requirement-network :
    (a : PaymentAuthorizer) (r : PaymentRequirement) (network : Text) (chain_id : ℕ)
    → check_requirement a r ≡ ok (network, chain_id)
    → (normalize_network r.network ≡ ok (network, chain_id))
      × (lookup network a.policy.allowed_networks ≡ some chain_id)
unfolding check_requirement
check_requirement-network a r network chain_id h =
    elim (Result-cases (normalize_network r.network)) [
      | inr (e, bad) ↦ absurd (ground arith)
      | inl ((n, c), named) ↦ elim (Option-cases (lookup n a.policy.allowed_networks)) [
        | inl missing ↦ absurd (ground arith)
        | inr (id, there) ↦ (ground arith, ground arith)
      ]
    ]

pub typed_data-Pays :
    (a : PaymentAuthorizer) (r : PaymentRequirement) (network : Text) (chain_id : ℕ) (t : Transfer)
    → check_requirement a r ≡ ok (network, chain_id)
    → t.pay_to ≡ r.pay_to
    → t.value ≡ r.amount
    → Pays a.policy r t.payer t.valid_before (typed_data r network chain_id t)
unfolding typed_data get text_eq lit ℕ_discrete
typed_data-Pays a r network chain_id t checked payee amount =
    let (named, allowed) = check_requirement-network a r network chain_id checked in
    record {
      network = network;
      chain_id = chain_id;
      named = named;
      allowed = allowed;
      kind = refl;
      on_chain = refl;
      in_asset = refl;
      from_payer = refl;
      to_payee = cc payee;
      of_amount = cc amount;
      until = refl;
    }
