-- ===== src/Command.antt =====
-- The start of the program (cmd/canary402/main.go): the components that `main` builds from the
-- environment, up to the server. The server of net/http and the signals are left out.
pub mod Started
use canary.Base.{Text, is_empty, Result, ok, ◌>>=◌, if◌then◌else◌, Option, none, some, ◌∷◌, ℕ}
use canary.Payment.Authorize.{PaymentAuthorizer, new_payment_authorizer}
use canary.Auditor.{Auditor, Evaluator}
use canary.Semantic.{ModelApi, new_lite_llm_evaluator, evaluate}
use canary.Config.{Environment, Config, config_from_env}
use canary.Store.{new_file_store}

-- What the server runs: its address, the auditor, the directory of the reports, how many audits may run at
-- once, and where the signer is.
pub record Program : Type 0 where
  pub address : Text
  pub auditor : Auditor
  pub report_dir : Text
  pub max_concurrent : ℕ
  pub remote_signer_url : Text
  pub remote_signer_token : Text

-- Without a token there is no evaluator.
unfoldable pub evaluator_of : ModelApi → Config → Option Evaluator
evaluator_of api cfg =
    if is_empty cfg.lite_llm_token
    then none
    else some
        (evaluate api (new_lite_llm_evaluator cfg.lite_llm_base_url cfg.lite_llm_token cfg.model))

abbrev pub program_of : ModelApi → Config → Text → PaymentAuthorizer → Program
program_of api cfg report_dir authorizer = record {
  address = b':' ∷ cfg.port;
  auditor = record {
    target = cfg.target_policy;
    authorizer = authorizer;
    evaluator = evaluator_of api cfg;
    config = cfg.audit_config;
  };
  report_dir = report_dir;
  max_concurrent = cfg.max_concurrent;
  remote_signer_url = cfg.remote_signer_url;
  remote_signer_token = cfg.remote_signer_token;
}

-- An error ends the program with status 1.
unfoldable pub start : (Text → Result (Unit {0})) → ModelApi → Environment → Result Program
start make_dir api env = do
  cfg ← config_from_env env
  report_dir ← new_file_store make_dir cfg.report_dir
  authorizer ← new_payment_authorizer cfg.payment_policy
  ok (program_of api cfg report_dir authorizer)
