-- ===== src/Payment/Select/Safety.antt =====
-- One round of the loop of `SelectPayment` (internal/canary/payment.go).
use canary.Base.{
  ℕ, ◌≤◌, text_eq, lit, to_lower, lookup, ok, Result-cases, Option-cases, ◌≡◌, ◌↔◌, ◌⊎◌, inl, inr,
  refl, sym, subst, arith, true, some, [],
}
use canary.Payment.{PaymentRequirement, PaymentPolicy, transfer_method}
use canary.Payment.Network.{normalize_network, is_address}
use canary.Payment.Amount.{positive_amount}
use canary.Payment.Select.{
  Wanted, matched, allowed_asset, consider_price, consider_asset, consider_terms, consider,
}

-- An option that may be paid, in its normalised form, said without the code's tests.
pub record IsSafe (policy : PaymentPolicy) (wanted : Wanted) (r : PaymentRequirement) : Type 0 where
  pub chain_id : ℕ
  pub network_allowed : lookup r.network policy.allowed_networks ≡ some chain_id
  pub network_wanted : (wanted.network ≡ []) ⊎ (r.network ≡ wanted.network)
  pub scheme_exact : r.scheme ≡ lit "exact"
  pub transfer_supported : (transfer_method r ≡ []) ⊎ (transfer_method r ≡ lit "eip3009")
  pub asset_address : is_address r.asset ≡ true
  pub pay_to_address : is_address r.pay_to ≡ true
  pub asset_wanted : (wanted.asset ≡ []) ⊎ (to_lower r.asset ≡ wanted.asset)
  pub asset_allowed :
      (allowed_asset policy r.network ≡ [])
      ⊎ (to_lower r.asset ≡ to_lower (allowed_asset policy r.network))
  pub amount : ℕ
  pub amount_read : positive_amount r.amount ≡ some amount
  pub within_request : amount ≤ wanted.request_max
  pub within_system : amount ≤ wanted.system_max

-- The option `r` of a challenge may be paid as `s`, which is `r` with its network normalised.
pub record IsAcceptable (policy : PaymentPolicy) (wanted : Wanted) (r s : PaymentRequirement)
    : Type 0 where
  pub chain_id : ℕ
  pub normalised : normalize_network r.network ≡ ok (s.network, chain_id)
  pub same : s ≡ record r { network = s.network }
  pub safe : IsSafe policy wanted s

module _ (policy : PaymentPolicy) (wanted : Wanted) where
  consider_price_sound :
      (r s : PaymentRequirement)
      → consider_price policy wanted r ≡ matched s
      → (n : ℕ) × (positive_amount r.amount ≡ some n)
        × (n ≤ wanted.request_max)
        × (n ≤ wanted.system_max)
        × (s ≡ r)
  unfolding consider_price
  consider_price_sound r s h = elim (Option-cases (positive_amount r.amount)) [
    | inl unread ↦ absurd (ground arith)
    | inr (n, read) ↦ (n, read, ground arith, ground arith, ground arith)
  ]

  consider_asset_sound :
      (r s : PaymentRequirement)
      → consider_asset policy wanted r ≡ matched s
      → (is_address r.asset ≡ true)
        × (is_address r.pay_to ≡ true)
        × ((wanted.asset ≡ []) ⊎ (to_lower r.asset ≡ wanted.asset))
        × ((allowed_asset policy r.network ≡ [])
            ⊎ (to_lower r.asset ≡ to_lower (allowed_asset policy r.network)))
        × (consider_price policy wanted r ≡ matched s)
  unfolding consider_asset
  consider_asset_sound r s h = ground arith

  consider_terms_sound :
      (r s : PaymentRequirement)
      → consider_terms policy wanted r ≡ matched s
      → ((n : ℕ) × (lookup r.network policy.allowed_networks ≡ some n))
        × ((wanted.network ≡ []) ⊎ (r.network ≡ wanted.network))
        × (r.scheme ≡ lit "exact")
        × ((transfer_method r ≡ []) ⊎ (transfer_method r ≡ lit "eip3009"))
        × (consider_asset policy wanted r ≡ matched s)
  unfolding consider_terms
  consider_terms_sound r s h = ground arith

  terms_IsSafe :
      (r s : PaymentRequirement)
      → consider_terms policy wanted r ≡ matched s
      → (s ≡ r) × IsSafe policy wanted r
  terms_IsSafe r s h =
      let ((n, allowed), net, exact, transfer, h') = consider_terms_sound r s h in
      let (asset, pay_to, asked, configured, h'') = consider_asset_sound r s h' in
      let (amount, read, in_request, in_system, same) = consider_price_sound r s h'' in
      (
        same,
        record {
          chain_id = n;
          network_allowed = allowed;
          network_wanted = net;
          scheme_exact = exact;
          transfer_supported = transfer;
          asset_address = asset;
          pay_to_address = pay_to;
          asset_wanted = asked;
          asset_allowed = configured;
          amount = amount;
          amount_read = read;
          within_request = in_request;
          within_system = in_system;
        },
      )

  consider_sound :
      (r s : PaymentRequirement)
      → consider policy wanted r ≡ matched s
      → IsAcceptable policy wanted r s
  unfolding consider
  consider_sound r s h = elim (Result-cases (normalize_network r.network)) [
    | inr (e, bad) ↦ absurd (ground arith)
    | inl ((network, id), good) ↦
        let r' : PaymentRequirement = record r { network = network } in
        let (same, safe) = terms_IsSafe r' s (rw (good, consider) at h) in
        let whole : IsAcceptable policy wanted r r' = record {
          chain_id = id;
          normalised = good;
          same = refl;
          safe = safe;
        } in
        subst (IsAcceptable policy wanted r) (sym same) whole
  ]

  consider_price_complete :
      (r : PaymentRequirement) → IsSafe policy wanted r → consider_price policy wanted r ≡ matched r
  unfolding consider_price
  consider_price_complete r safe = ground arith

  consider_asset_complete :
      (r : PaymentRequirement) → IsSafe policy wanted r → consider_asset policy wanted r ≡ matched r
  unfolding consider_asset
  consider_asset_complete r safe = ground (arith, consider_price_complete r safe)

  consider_terms_complete :
      (r : PaymentRequirement) → IsSafe policy wanted r → consider_terms policy wanted r ≡ matched r
  unfolding consider_terms
  consider_terms_complete r safe = ground (arith, consider_asset_complete r safe)

  consider_complete :
      (r s : PaymentRequirement)
      → IsAcceptable policy wanted r s
      → consider policy wanted r ≡ matched s
  unfolding consider
  consider_complete r s a =
      rw (a.normalised, consider) (rw (← a.same) (consider_terms_complete s a.safe))

  -- One round of the loop matches exactly the acceptable options, in their normalised form.
  pub consider-matched_iff :
      (r s : PaymentRequirement)
      → (consider policy wanted r ≡ matched s) ↔ IsAcceptable policy wanted r s
  consider-matched_iff r s = (consider_sound r s, consider_complete r s)
