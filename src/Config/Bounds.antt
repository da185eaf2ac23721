-- ===== src/Config/Bounds.antt =====
-- What a configuration holds that ConfigFromEnv (internal/canary/config.go) has read.
use canary.Base.{
  split, ℕ, ◌≤◌, ℕ_discrete, Text, lit, text_eq, nat_eq, lookup, is_empty, to_lower, trim_space, ok,
  Result-cases, Bool-cases, ◌≡◌, ◌≢◌, ◌⊎◌, ◌∙◌, inl, inr, refl, sym, arith, true, some, List, [],
  ◌∷◌,
}
use canary.Payment.{PaymentPolicy}
use canary.Payment.Network.{base, base_sepolia, normalize_network, is_address}
use canary.Payment.Select.{allowed_asset}
use canary.Payment.Authorize.Guards.{IsConsistent, normalize_network-cases}
use canary.Config.{
  Environment, Config, add_networks, env_count, allowed_networks, allowed_assets, base_usdc,
  base_sepolia_usdc, config_from_env,
}

-- A network with the chain id that the program knows for it.
abbrev pub IsKnown : Text × ℕ → Type 0
IsKnown (network, chain_id) =
    ((network ≡ base) × (chain_id ≡ 8453)) ⊎ ((network ≡ base_sepolia) × (chain_id ≡ 84532))

abbrev pub AllKnown : List (Text × ℕ) → Type 0
AllKnown networks =
    (network : Text) (chain_id : ℕ)
    → lookup network networks ≡ some chain_id
    → IsKnown (network, chain_id)

normalize_network-IsKnown :
    (value : Text) (entry : Text × ℕ) → normalize_network value ≡ ok entry → IsKnown entry
unfolding normalize_network
normalize_network-IsKnown value (network, chain_id) h = ground arith

add_networks-AllKnown :
    (networks : List (Text × ℕ)) (values : List Text) (all : List (Text × ℕ))
    → AllKnown networks
    → add_networks networks values ≡ ok all
    → AllKnown all
unfolding add_networks
add_networks-AllKnown networks [] all known h =
    λ network chain_id there. known network chain_id (ground arith)
add_networks-AllKnown networks (value ∷ values) all known h =
    elim (Result-cases (normalize_network (trim_space value))) [
      | inr (e, bad) ↦ absurd (ground arith)
      | inl ((network, chain_id), good) ↦
          add_networks-AllKnown ((network, chain_id) ∷ networks) values all
            (λ n c there. ground (
              arith,
              normalize_network-IsKnown (trim_space value) (network, chain_id) good,
              known n c,
            ))
            (ground arith)
    ]

-- What holds of every configuration.
pub record IsConfigured (c : Config) : Type 0 where
  pub some_audit : 1 ≤ c.max_concurrent
  pub max_audits : c.max_concurrent ≤ 64
  pub min_timeout : 1000 ≤ c.target_policy.timeout
  pub max_timeout : c.target_policy.timeout ≤ 120000
  pub networks : AllKnown c.payment_policy.allowed_networks
  pub asset :
      (network : Text)
      → (allowed_asset c.payment_policy network ≡ [])
        ⊎ (is_address (allowed_asset c.payment_policy network) ≡ true)

env_count-within :
    (env : Environment) (name : Text) (fallback limit : ℕ) (message : Text) (n : ℕ)
    → env_count env name fallback limit message ≡ ok n
    → (1 ≤ n) × (n ≤ limit)
unfolding env_count
env_count-within env name fallback limit message n h = ground arith

allowed_networks-AllKnown :
    (env : Environment) (networks : List (Text × ℕ))
    → allowed_networks env ≡ ok networks
    → AllKnown networks
unfolding allowed_networks
allowed_networks-AllKnown env networks h network chain_id there =
    elim (Bool-cases (is_empty (trim_space (env (lit "CANARY_ALLOWED_NETWORKS"))))) [
      | inl unset ↦ ground arith
      | inr listed ↦
          add_networks-AllKnown [] (split b',' (trim_space (env (lit "CANARY_ALLOWED_NETWORKS"))))
            networks (λ n c there. cc) (ground arith) network chain_id there
    ]

base_usdc-is_address : is_address (to_lower base_usdc) ≡ true
unfolding is_address to_lower lit ℕ_discrete
base_usdc-is_address = refl

base_sepolia_usdc-is_address : is_address (to_lower base_sepolia_usdc) ≡ true
unfolding is_address to_lower lit ℕ_discrete
base_sepolia_usdc-is_address = refl

configured_asset :
    (env : Environment) (policy : PaymentPolicy) (network : Text)
    → policy.allowed_assets ≡ allowed_assets env
    → (allowed_asset policy network ≡ []) ⊎ (is_address (allowed_asset policy network) ≡ true)
configured_asset env policy network same =
    ground (arith, base_usdc-is_address, base_sepolia_usdc-is_address)

-- A configuration that is read allows 1 to 64 audits at once and a timeout from one second to two
-- minutes, allows only networks that the program knows, under their chain ids, and restricts a network
-- to no asset or to an asset that is an address.
pub config_from_env-IsConfigured :
    (env : Environment) (c : Config) → config_from_env env ≡ ok c → IsConfigured c
unfolding config_from_env
config_from_env-IsConfigured env c h = record {
  some_audit = grind (arith, env_count-within);
  max_audits = grind (arith, env_count-within);
  min_timeout = grind (arith, env_count-within);
  max_timeout = grind (arith, env_count-within);
  networks = λ network chain_id there. grind (arith, allowed_networks-AllKnown);
  asset = λ network. configured_asset env c.payment_policy network (ground arith);
}

bases-differ : base ≢ base_sepolia
unfolding lit
bases-differ h = cc

same_chain :
    (network : Text) (chain_id allowed_id : ℕ)
    → IsKnown (network, chain_id)
    → IsKnown (network, allowed_id)
    → allowed_id ≡ chain_id
same_chain network chain_id allowed_id (inl (n, c)) (inl (m, d)) = omega (arith, c, d)
same_chain network chain_id allowed_id (inl (n, c)) (inr (m, d)) = absurd (bases-differ (sym n ∙ m))
same_chain network chain_id allowed_id (inr (n, c)) (inl (m, d)) = absurd (bases-differ (sym m ∙ n))
same_chain network chain_id allowed_id (inr (n, c)) (inr (m, d)) = omega (arith, c, d)

-- The payment policy of a configuration is consistent, as the agreement of selection and authorization
-- assumes.
pub config_from_env-IsConsistent :
    (env : Environment) (c : Config) → config_from_env env ≡ ok c → IsConsistent c.payment_policy
config_from_env-IsConsistent env c h =
    let configured = config_from_env-IsConfigured env c h in
    record {
      chain_ids = λ network chain_id allowed_id normal there.
          same_chain network chain_id allowed_id
            (normalize_network-cases network network chain_id normal)
            (configured.networks network allowed_id there);
      assets = configured.asset;
    }
