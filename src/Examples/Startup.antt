-- ===== src/Examples/Startup.antt =====
-- Runs of the start of the program, and the theorems at their data.
use canary.Base.{
  if◌then◌else◌, ◌==◌, ℕ, lit, text_eq, nat_eq, ℕ_discrete, trim_space, to_lower, set_string, ok,
  err, ◌≡◌, refl, false, none, [], ◌∷◌,
}
use canary.Json.{get}
use canary.Payment.Network.{base, base_sepolia, normalize_network, is_address}
use canary.Payment.Amount.{positive_amount}
use canary.Payment.Select.{
  wanted_of, matches, conclude, consider, consider_terms, consider_asset, consider_price,
  select_payment,
}
use canary.Payment.Authorize.{PaymentAuthorizer, new_payment_authorizer, check_requirement}
use canary.Payment.Authorize.Guards.{select_payment-check_requirement}
use canary.Config.{Environment, Config, env_string, env_bool, env_int, config_from_env}
use canary.Config.Bounds.{IsConfigured, config_from_env-IsConfigured, config_from_env-IsConsistent}
use canary.Semantic.{ModelApi}
use canary.Auditor.Flow.{audit}
use canary.Examples.{offer, named, dear, request, usdc, out}
use canary.Auditor.Flow.{audit}
use canary.Store.{new_file_store}
use canary.Spec.Inspection.{spec_inspector}
use canary.Command.{Program, program_of, start}
use canary.Command.Started.{IsSound, start-IsSound}
use canary.Examples.Inspectors.{spec}

-- A configuration from an environment that sets nothing.
abbrev env : Environment
env = λ name. []

abbrev config : Config
config = record {
  port = lit "8080";
  report_dir = lit "/data/reports";
  remote_signer_url = lit "http://remote-signer.hermes-obol-agent.svc.cluster.local:9000";
  remote_signer_token = [];
  lite_llm_base_url = lit "http://litellm.llm.svc.cluster.local:4000";
  lite_llm_token = [];
  model = lit "openrouter/auto";
  max_concurrent = 4;
  target_policy = record {
    allow_http = false;
    allow_private_targets = false;
    timeout = 20000;
    max_response_bytes = 1048576;
  };
  payment_policy = record {
    max_atomic_amount = lit "20000";
    allowed_networks = (base, 8453) ∷ (base_sepolia, 84532) ∷ [];
    allowed_assets =
        (base, lit "0x833589fcd6edb6e08f4c7c32d4f71b54bda02913") ∷ (base_sepolia, usdc) ∷ [];
    authorization_ttl = 1800;
  };
  audit_config = record {
    max_request_body_bytes = 65536;
    max_expectation_bytes = 2000;
    semantic_input_bytes = 12000;
  };
}

configured : config_from_env env ≡ ok config
unfolding config_from_env env_string env_bool env_int trim_space to_lower lit ℕ_discrete
configured = refl

-- Selection and authorization under that configuration.
abbrev authorizer : PaymentAuthorizer
authorizer = record { policy = config.payment_policy; max = 20000 }

authorizer_made : new_payment_authorizer config.payment_policy ≡ ok authorizer
unfolding new_payment_authorizer positive_amount set_string lit ℕ_discrete
authorizer_made = refl

selected : select_payment (dear ∷ named ∷ []) request config.payment_policy ≡ ok offer
unfolding select_payment text_eq lit trim_space to_lower set_string wanted_of positive_amount
    ℕ_discrete normalize_network conclude matches consider consider_terms get consider_asset
    is_address consider_price
selected = refl

select_payment-check_requirement_example :
    (chain_id : ℕ) × (check_requirement authorizer offer ≡ ok (offer.network, chain_id))
select_payment-check_requirement_example =
    select_payment-check_requirement (dear ∷ named ∷ []) request config.payment_policy authorizer
      offer authorizer_made (config_from_env-IsConsistent env config configured) selected

config_from_env-IsConfigured_example : IsConfigured config
config_from_env-IsConfigured_example = config_from_env-IsConfigured env config configured

-- A model that fails, and an environment with a token for it.
abbrev model_api : ModelApi
model_api = record {
  marshal = λ json. ok (lit "{}");
  new_request = λ address. ok tt;
  post = λ address token body h. err (lit "no model");
  decode_verdict = λ s. none;
}

abbrev keyed : Environment
keyed = λ name. if name == lit "LITELLM_MASTER_KEY" then lit "key" else []

abbrev program : Program
program =
    program_of model_api (record config { lite_llm_token = lit "key" }) (lit "/data/reports")
      authorizer

started : start (λ dir. ok tt) model_api keyed ≡ ok program
unfolding start config_from_env env_string env_bool env_int trim_space to_lower lit ℕ_discrete
    text_eq new_payment_authorizer positive_amount set_string new_file_store
started = refl

start-IsSound_example :
    IsSound keyed request out program.auditor
      (audit out (spec_inspector out program.auditor spec) program.auditor request [])
start-IsSound_example =
    start-IsSound (λ dir. ok tt) model_api keyed program out spec request started
