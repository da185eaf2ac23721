-- ===== src/Config.antt =====
-- The configuration from the environment (internal/canary/config.go). An environment gives the value
-- of each variable, the empty text where it is not set.
pub mod Bounds
use canary.Base.{
  ℕ, ◌+◌, ◌*◌, Text, lit, text_eq, nat_eq, contains, leb, is_empty, trim_space, split, to_lower,
  atoi, ℤ, pos, negsuc, Result, ok, err, ◌>>=◌, ◌>>◌, if◌then◌else◌, Bool, true, false, ◌&&◌,
  Option, none, some, List, [], ◌∷◌, ◌++◌,
}
use canary.Payment.{PaymentPolicy}
use canary.Payment.Network.{base, base_sepolia, normalize_network}
use canary.Target.{TargetPolicy}
use canary.Auditor.{AuditConfig}

abbrev pub Environment : Type 0
Environment = Text → Text

pub record Config : Type 0 where
  pub port : Text
  pub report_dir : Text
  pub remote_signer_url : Text
  pub remote_signer_token : Text
  pub lite_llm_base_url : Text
  pub lite_llm_token : Text
  pub model : Text
  pub max_concurrent : ℕ
  pub target_policy : TargetPolicy
  pub payment_policy : PaymentPolicy
  pub audit_config : AuditConfig

abbrev pub base_usdc : Text
base_usdc = lit "0x833589fCD6eDb6E08f4c7C32D4f71b54bdA02913"

abbrev pub base_sepolia_usdc : Text
base_sepolia_usdc = lit "0x036CbD53842c5426634e7929541eC2318f3dCF7e"

-- `strconv.ParseBool`
unfoldable pub parse_bool : Text → Option Bool
parse_bool s =
    if contains (lit "1" ∷ lit "t" ∷ lit "T" ∷ lit "TRUE" ∷ lit "true" ∷ lit "True" ∷ []) s
    then some true
    else if contains (lit "0" ∷ lit "f" ∷ lit "F" ∷ lit "FALSE" ∷ lit "false" ∷ lit "False" ∷ []) s
    then some false
    else none

-- A value that lies between 1 and a limit.
abbrev within : ℕ → ℤ → Option ℕ
within limit (pos n) = if leb 1 n && leb n limit then some n else none
within limit (negsuc n) = none

-- The loop over the listed networks, with the map so far.
unfoldable pub add_networks : List (Text × ℕ) → List Text → Result (List (Text × ℕ))
add_networks networks [] = ok networks
add_networks networks (value ∷ values) = elim (normalize_network (trim_space value)) [
  | err e ↦ err (lit "CANARY_ALLOWED_NETWORKS: " ++ e)
  | ok entry ↦ add_networks (entry ∷ networks) values
]

module _ (env : Environment) where
  unfoldable pub env_string : Text → Text → Text
  env_string name fallback =
      let value = trim_space (env name) in if is_empty value then fallback else value

  unfoldable pub env_bool : Text → Bool → Bool
  env_bool name fallback =
      let value = trim_space (env name) in
      if is_empty value
      then fallback
      else elim (parse_bool value) [ none ↦ fallback | some parsed ↦ parsed ]

  unfoldable pub env_int : Text → ℕ → Option ℤ
  env_int name fallback =
      let value = trim_space (env name) in
      if is_empty value then some (pos fallback) else atoi value

  -- A count of `env_int` between 1 and a limit.
  env_count : Text → ℕ → ℕ → Text → Result ℕ
  env_count name fallback limit message = elim (env_int name fallback) [
    | none ↦ err message
    | some value ↦ elim (within limit value) [ none ↦ err message | some n ↦ ok n ]
  ]

  allowed_networks : Result (List (Text × ℕ))
  allowed_networks =
      let raw = trim_space (env (lit "CANARY_ALLOWED_NETWORKS")) in
      if is_empty raw
      then ok ((base, 8453) ∷ (base_sepolia, 84532) ∷ [])
      else add_networks [] (split b',' raw)

  abbrev allowed_assets : List (Text × Text)
  allowed_assets = (base, to_lower base_usdc) ∷ (base_sepolia, to_lower base_sepolia_usdc) ∷ []

  unfoldable pub config_from_env : Result Config
  unfolding env_count allowed_networks
  config_from_env = do
    max_concurrent ←
        env_count (lit "CANARY_MAX_CONCURRENT") 4 64
          (lit "CANARY_MAX_CONCURRENT must be between 1 and 64")
    timeout_seconds ←
        env_count (lit "CANARY_TARGET_TIMEOUT_SECONDS") 20 120
          (lit "CANARY_TARGET_TIMEOUT_SECONDS must be between 1 and 120")
    networks ← allowed_networks
    ok (record {
      port = env_string (lit "PORT") (lit "8080");
      report_dir = env_string (lit "CANARY_REPORT_DIR") (lit "/data/reports");
      remote_signer_url =
          env_string (lit "REMOTE_SIGNER_URL")
            (lit "http://remote-signer.hermes-obol-agent.svc.cluster.local:9000");
      remote_signer_token = trim_space (env (lit "REMOTE_SIGNER_TOKEN"));
      lite_llm_base_url =
          env_string (lit "LITELLM_BASE_URL") (lit "http://litellm.llm.svc.cluster.local:4000");
      lite_llm_token = trim_space (env (lit "LITELLM_MASTER_KEY"));
      model = env_string (lit "CANARY_MODEL") (lit "openrouter/auto");
      max_concurrent = max_concurrent;
      target_policy = record {
        allow_http = env_bool (lit "CANARY_ALLOW_HTTP") false;
        allow_private_targets = env_bool (lit "CANARY_ALLOW_PRIVATE_TARGETS") false;
        timeout = timeout_seconds * 1000;
        max_response_bytes = 1048576;
      };
      payment_policy = record {
        max_atomic_amount = env_string (lit "CANARY_MAX_PAYMENT_ATOMIC") (lit "20000");
        allowed_networks = networks;
        allowed_assets = allowed_assets;
        authorization_ttl = 1800;
      };
      audit_config = record {
        max_request_body_bytes = 65536;
        max_expectation_bytes = 2000;
        semantic_input_bytes = 12000;
      };
    })
