-- ===== src/Payment/Authorize/Guards.antt =====
-- The guards of `Authorize` (internal/canary/payment.go) on an option that `SelectPayment` selected.
use canary.Base.{
  ℕ, zero, suc, ℕ_discrete, ◌+◌, ◌-◌, ◌*◌, Text, lit, text_eq, nat_eq, lookup, ◌==◌, to_lower,
  trim_space, equal_fold, IsVisible, IsAscii, trim_space-visible, equal_fold-to_lower, set_string,
  read_digits, read_natural, ℤ, pos, ok, Option-cases, Bool-cases, ◌≡◌, ◌⊎◌, inl, inr, refl, sym,
  subst, arith, true, some, List, [], ◌∷◌, All,
}
use canary.Report.{AuditRequest}
use canary.Payment.{PaymentRequirement, PaymentPolicy}
use canary.Payment.Network.{
  base, base_sepolia, normalize_network, exactly_hex, is_hex_literal, is_address,
}
use canary.Payment.Amount.{positive_amount}
use canary.Payment.Select.{Wanted, allowed_asset, select_payment}
use canary.Payment.Select.Safety.{IsSafe, IsAcceptable}
use canary.Payment.Select.Unique.{IsOnly, here, there, select_payment-ok_iff}
use canary.Payment.Select.Caps.{wanted_caps}
use canary.Payment.Authorize.{
  PaymentAuthorizer, new_payment_authorizer, check_terms, check_requirement,
}

-- Addresses are ASCII.
exactly_hex-IsAscii : (n : ℕ) (s : Text) → exactly_hex n s ≡ true → All IsAscii s
unfolding exactly_hex
exactly_hex-IsAscii zero [] h = tt
exactly_hex-IsAscii zero (c ∷ s) h = absurd (cc)
exactly_hex-IsAscii (suc n) [] h = tt
exactly_hex-IsAscii (suc n) (c ∷ s) h = (ground arith, exactly_hex-IsAscii n s (ground arith))

address-IsAscii : (s : Text) → is_address s ≡ true → All IsAscii s
unfolding is_address is_hex_literal
address-IsAscii [] h = tt
address-IsAscii (a ∷ []) h = absurd (cc)
address-IsAscii (a ∷ b ∷ s) h =
    (ground arith, (ground arith, exactly_hex-IsAscii 40 s (ground arith)))

-- Numbers are visible.
read_digits-IsVisible : (n m : ℕ) (s : Text) → read_digits n s ≡ some m → All IsVisible s
unfolding read_digits
read_digits-IsVisible n m [] h = tt
read_digits-IsVisible n m (c ∷ s) h =
    (ground arith, read_digits-IsVisible (n * 10 + (c - b'0')) m s (ground arith))

read_natural-IsVisible : (m : ℕ) (s : Text) → read_natural s ≡ some m → All IsVisible s
unfolding read_natural
read_natural-IsVisible m [] h = absurd (cc)
read_natural-IsVisible m (c ∷ s) h = read_digits-IsVisible 0 m (c ∷ s) h

set_string-IsVisible : (z : ℤ) (t : Text) → set_string t ≡ some z → All IsVisible t
unfolding set_string
set_string-IsVisible z [] h = tt
set_string-IsVisible z (c ∷ s) h = elim (Bool-cases (c == b'-')) [
  | inl minus ↦ (ground arith, grind (arith, read_natural-IsVisible))
  | inr other ↦ elim (Bool-cases (c == b'+')) [
    | inl plus ↦ (ground arith, grind (arith, read_natural-IsVisible))
    | inr digit ↦ elim (Option-cases (read_natural (c ∷ s))) [
      | inl unread ↦ absurd (ground arith)
      | inr (n, read) ↦ read_natural-IsVisible n (c ∷ s) read
    ]
  ]
]

positive_amount-trimmed : (t : Text) (n : ℕ) → positive_amount t ≡ some n → trim_space t ≡ t
unfolding positive_amount
positive_amount-trimmed t n h = trim_space-visible t (set_string-IsVisible (pos n) t (ground arith))

base-normal : normalize_network base ≡ ok (base, 8453)
unfolding normalize_network to_lower trim_space text_eq lit ℕ_discrete
base-normal = refl

base_sepolia-normal : normalize_network base_sepolia ≡ ok (base_sepolia, 84532)
unfolding normalize_network to_lower trim_space text_eq lit ℕ_discrete
base_sepolia-normal = refl

pub normalize_network-cases :
    (value network : Text) (chain_id : ℕ)
    → normalize_network value ≡ ok (network, chain_id)
    → ((network ≡ base) × (chain_id ≡ 8453)) ⊎ ((network ≡ base_sepolia) × (chain_id ≡ 84532))
unfolding normalize_network
normalize_network-cases value network chain_id h = ground arith

-- A normalised network is its own normal form, with the same chain id.
normalize_network-twice :
    (value network : Text) (chain_id : ℕ)
    → normalize_network value ≡ ok (network, chain_id)
    → normalize_network network ≡ ok (network, chain_id)
normalize_network-twice value network chain_id h =
    elim (normalize_network-cases value network chain_id h) [
      | inl (n, c) ↦ rw (n, c) base-normal
      | inr (n, c) ↦ rw (n, c) base_sepolia-normal
    ]

-- The operator's policy as the configuration leaves it: chain ids are those of the networks, and an
-- asset is an address.
pub record IsConsistent (policy : PaymentPolicy) : Type 0 where
  pub chain_ids :
      (network : Text) (chain_id allowed_id : ℕ)
      → normalize_network network ≡ ok (network, chain_id)
      → lookup network policy.allowed_networks ≡ some allowed_id
      → allowed_id ≡ chain_id
  pub assets :
      (network : Text)
      → (allowed_asset policy network ≡ []) ⊎ (is_address (allowed_asset policy network) ≡ true)

IsOnly-IsAcceptable :
    {policy : PaymentPolicy} {wanted : Wanted} {s : PaymentRequirement}
    {rs : List PaymentRequirement}
    → IsOnly policy wanted s rs
    → (r : PaymentRequirement) × IsAcceptable policy wanted r s
IsOnly-IsAcceptable (here {r} a others) = (r, a)
IsOnly-IsAcceptable (there refused only) = IsOnly-IsAcceptable only

safe_asset :
    (policy : PaymentPolicy) (wanted : Wanted) (s : PaymentRequirement)
    → IsConsistent policy
    → IsSafe policy wanted s
    → (allowed_asset policy s.network ≡ [])
      ⊎ (equal_fold (allowed_asset policy s.network) s.asset ≡ true)
safe_asset policy wanted s consistent safe = elim (safe.asset_allowed) [
  | inl free ↦ inl free
  | inr same ↦ elim (consistent.assets s.network) [
    | inl free ↦ inl free
    | inr address ↦ inr (
        equal_fold-to_lower _ _ (address-IsAscii _ address)
          (address-IsAscii s.asset safe.asset_address) (sym same))
  ]
]

check_terms_passes :
    (a : PaymentAuthorizer) (wanted : Wanted) (s : PaymentRequirement)
    → IsConsistent a.policy
    → IsSafe a.policy wanted s
    → wanted.system_max ≡ a.max
    → check_terms a s s.network ≡ ok tt
unfolding check_terms
check_terms_passes a wanted s consistent safe cap =
    let asset = safe_asset a.policy wanted s consistent safe in ground arith

new_payment_authorizer_sound :
    (policy : PaymentPolicy) (a : PaymentAuthorizer)
    → new_payment_authorizer policy ≡ ok a
    → (a.policy ≡ policy) × (positive_amount policy.max_atomic_amount ≡ some a.max)
unfolding new_payment_authorizer
new_payment_authorizer_sound policy a h = ground arith

check_requirement_passes :
    (a : PaymentAuthorizer) (wanted : Wanted) (r s : PaymentRequirement)
    → IsConsistent a.policy
    → IsAcceptable a.policy wanted r s
    → wanted.system_max ≡ a.max
    → (chain_id : ℕ) × (check_requirement a s ≡ ok (s.network, chain_id))
unfolding check_requirement
check_requirement_passes a wanted r s consistent acceptable cap =
    let known =
      normalize_network-twice r.network s.network acceptable.chain_id acceptable.normalised in
    let allowed = acceptable.safe.network_allowed in
    let passes = check_terms_passes a wanted s consistent acceptable.safe cap in
    let same =
      consistent.chain_ids s.network acceptable.chain_id acceptable.safe.chain_id known allowed in
    (acceptable.chain_id, ground arith)

cap_same :
    (policy : PaymentPolicy) (wanted : Wanted) (a : PaymentAuthorizer)
    → positive_amount policy.max_atomic_amount ≡ some a.max
    → positive_amount (trim_space policy.max_atomic_amount) ≡ some wanted.system_max
    → wanted.system_max ≡ a.max
cap_same policy wanted a maximum system_max =
    let trimmed = positive_amount-trimmed policy.max_atomic_amount a.max maximum in ground arith

-- Under a consistent policy, the guards of `Authorize` pass every option that `SelectPayment` selects,
-- and give its network.
pub select_payment-check_requirement :
    (rs : List PaymentRequirement) (request : AuditRequest) (policy : PaymentPolicy)
    (a : PaymentAuthorizer) (s : PaymentRequirement)
    → new_payment_authorizer policy ≡ ok a
    → IsConsistent policy
    → select_payment rs request policy ≡ ok s
    → (chain_id : ℕ) × (check_requirement a s ≡ ok (s.network, chain_id))
select_payment-check_requirement rs request policy a s made consistent selected =
    let (same_policy, maximum) = new_payment_authorizer_sound policy a made in
    let (wanted, good, only) = (select_payment-ok_iff rs request policy s).0 selected in
    let (r, acceptable) = IsOnly-IsAcceptable only in
    let (_, system_max, _) = wanted_caps request policy wanted good in
    check_requirement_passes a wanted r s (subst IsConsistent (sym same_policy) consistent)
      (subst (λ p. IsAcceptable p wanted r s) (sym same_policy) acceptable)
      (cap_same policy wanted a maximum system_max)
