-- ===== src/Payment/Select/Chosen.antt =====
-- Where a selection of `SelectPayment` (internal/canary/payment.go) comes from, and the wishes that it
-- meets.
use canary.Base.{
  ℕ, Text, text_eq, lit, trim_space, to_lower, to_lower-nil, is_empty, lookup, ok, ◌≡◌, ◌⊎◌, inl,
  inr, arith, Bool-cases, Result-cases, some, List, [], Any, first, later,
}
use canary.Report.{AuditRequest}
use canary.Payment.{PaymentRequirement, PaymentPolicy}
use canary.Payment.Network.{normalize_network}
use canary.Payment.Select.{Wanted, allowed_asset, wanted_of, wanted_network, select_payment}
use canary.Payment.Select.Unique.{IsOnly, here, there, select_payment-ok_iff}
use canary.Payment.Select.Caps.{IsAffordable, IsOnly-IsSafe, select_payment-IsAffordable}

-- The option that is selected is the offered one under the normal form of its network.
abbrev pub IsNormalised : PaymentRequirement → PaymentRequirement → Type 0
IsNormalised s r =
    (s ≡ record r { network = s.network })
    × ((chain_id : ℕ) × (normalize_network r.network ≡ ok (s.network, chain_id)))

-- One of the options, within both caps, for the network and the asset that the request names, and on a
-- network and of an asset that the operator allows.
pub record IsChosen (options : List PaymentRequirement) (request : AuditRequest)
    (policy : PaymentPolicy) (s : PaymentRequirement) : Type 0 where
  pub offered : Any (IsNormalised s) options
  pub affordable : IsAffordable request policy s
  pub network_wish :
      (trim_space request.payment_network ≡ [])
      ⊎ ((chain_id : ℕ) × (normalize_network request.payment_network ≡ ok (s.network, chain_id)))
  pub asset_wish :
      (trim_space request.payment_asset ≡ [])
      ⊎ (to_lower s.asset ≡ to_lower (trim_space request.payment_asset))
  pub network_allowed : (chain_id : ℕ) × (lookup s.network policy.allowed_networks ≡ some chain_id)
  pub asset_allowed :
      (allowed_asset policy s.network ≡ [])
      ⊎ (to_lower s.asset ≡ to_lower (allowed_asset policy s.network))
  pub exact : s.scheme ≡ lit "exact"

IsOnly-offered :
    {policy : PaymentPolicy} {wanted : Wanted} {s : PaymentRequirement}
    {rs : List PaymentRequirement}
    → IsOnly policy wanted s rs
    → Any (IsNormalised s) rs
IsOnly-offered (here a others) = first (a.same, (a.chain_id, a.normalised))
IsOnly-offered (there refused only) = later (IsOnly-offered only)

-- The wishes of the request, said over its texts.
wanted_network_sound :
    (text network : Text)
    → wanted_network text ≡ ok network
    → (trim_space text ≡ []) ⊎ ((chain_id : ℕ) × (normalize_network text ≡ ok (network, chain_id)))
unfolding wanted_network
wanted_network_sound text network h = elim (Bool-cases (is_empty (trim_space text))) [
  | inl free ↦ inl (ground arith)
  | inr asked ↦ elim (Result-cases (normalize_network text)) [
    | inl ((n, chain_id), known) ↦ inr (chain_id, ground arith)
    | inr (e, unknown) ↦ absurd (ground arith)
  ]
]

wanted_wishes :
    (request : AuditRequest) (policy : PaymentPolicy) (wanted : Wanted)
    → wanted_of request policy ≡ ok wanted
    → (wanted_network request.payment_network ≡ ok wanted.network)
      × (wanted.asset ≡ to_lower (trim_space request.payment_asset))
unfolding wanted_of
wanted_wishes request policy wanted h = ground arith

normalize_network-nonempty :
    (text network : Text) (chain_id : ℕ)
    → normalize_network text ≡ ok (network, chain_id)
    → ¬ (network ≡ [])
unfolding normalize_network lit
normalize_network-nonempty text network chain_id h e = ground arith

-- The option that `SelectPayment` returns is one of those it was given, under the normal form of its
-- network. It is affordable within both caps, of the network and the asset that the request names, where
-- it names any, of the scheme "exact", and of a network and an asset that the operator allows.
pub select_payment-IsChosen :
    (rs : List PaymentRequirement) (request : AuditRequest) (policy : PaymentPolicy)
    (s : PaymentRequirement)
    → select_payment rs request policy ≡ ok s
    → IsChosen rs request policy s
select_payment-IsChosen rs request policy s h =
    let (wanted, good, only) = (select_payment-ok_iff rs request policy s).0 h in
    let (net, asset) = wanted_wishes request policy wanted good in
    let safe = IsOnly-IsSafe only in
    record {
      offered = IsOnly-offered only;
      affordable = select_payment-IsAffordable rs request policy s h;
      network_wish = elim (wanted_network_sound _ _ net) [
        | inl free ↦ inl free
        | inr (chain_id, known) ↦ elim (safe.network_wanted) [
          | inl none ↦ absurd (normalize_network-nonempty _ _ chain_id known none)
          | inr same ↦ inr (chain_id, ground arith)
        ]
      ];
      asset_wish = elim (safe.asset_wanted) [
        | inl none ↦ inl (to_lower-nil _ (ground arith))
        | inr same ↦ inr (ground arith)
      ];
      network_allowed = (safe.chain_id, safe.network_allowed);
      asset_allowed = safe.asset_allowed;
      exact = safe.scheme_exact;
    }
