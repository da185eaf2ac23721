-- ===== src/Command/Started.antt =====
-- What holds of a program that `main` (cmd/canary402/main.go) has started, whatever the environment
-- says.
use canary.Base.{
  Text, ◌≤◌, nat_eq, is_empty, Result, ok, Result-cases, Bool-cases, ◌≡◌, ◌≢◌, inl, inr, subst, sym,
  ◌∙◌, arith, some, [],
}
use canary.Report.{AuditRequest}
use canary.Effect.{History}
use canary.Payment.Amount.{positive_amount}
use canary.Payment.Authorize.{PaymentAuthorizer, new_payment_authorizer}
use canary.Payment.Authorize.Guards.{IsConsistent}
use canary.Auditor.{Outside, Auditor}
use canary.Auditor.Checks.{Outcome}
use canary.Auditor.Evaluation.Points.{IsScoring}
use canary.Auditor.Flow.{audit}
use canary.Auditor.Flow.Permits.{Allowed}
use canary.Auditor.Flow.Spending.{audit-Allowed}
use canary.Auditor.Flow.Counts.{signature_count, payment_count}
use canary.Auditor.Flow.Once.{audit-once}
use canary.Auditor.Flow.Open.{Reports}
use canary.Auditor.Flow.Reports.{audit-Reports}
use canary.Config.{Environment, Config, config_from_env}
use canary.Config.Bounds.{config_from_env-IsConfigured, config_from_env-IsConsistent}
use canary.Semantic.{ModelApi, new_lite_llm_evaluator}
use canary.Semantic.Judgement.{evaluate-IsJudgement}
use canary.Spec.Documents.{SpecDecoders}
use canary.Spec.Verdict.{inspector_of-FairInspector}
use canary.Spec.Inspection.{tools_of, inspect_specifications, spec_inspector}
use canary.Spec.Inspection.Discovery.{spec_inspector-QuietInspector}
use canary.Store.{new_file_store}
use canary.Command.{Program, program_of, evaluator_of, start}
use canary.Base.{refl, ap, none, ◌↔◌}

-- The parts are those that the environment asks for, and they fit: the directory of the reports was made,
-- the payment policy is the configured one, is consistent and has the cap that the authorizer reads, there
-- is an evaluator exactly if there is a token for the model, and it scores up to 100, and from 1 to 64
-- audits may run at once.
pub record IsReady (make_dir : Text → Result (Unit {0})) (env : Environment) (p : Program)
    : Type 0 where
  pub configuration : Config
  pub read : config_from_env env ≡ ok configuration
  pub directory : p.report_dir ≡ configuration.report_dir
  pub named : p.report_dir ≢ []
  pub made : make_dir p.report_dir ≡ ok tt
  pub guarded : p.auditor.target ≡ configuration.target_policy
  pub own_policy : p.auditor.authorizer.policy ≡ configuration.payment_policy
  pub consistent : IsConsistent p.auditor.authorizer.policy
  pub cap :
      positive_amount p.auditor.authorizer.policy.max_atomic_amount ≡ some p.auditor.authorizer.max
  pub judged : (p.auditor.evaluator ≡ none) ↔ (configuration.lite_llm_token ≡ [])
  pub scoring : IsScoring p.auditor.evaluator
  pub some_audit : 1 ≤ p.max_concurrent
  pub few_audits : p.max_concurrent ≤ 64

evaluator_of-none_iff :
    (api : ModelApi) (cfg : Config) → (evaluator_of api cfg ≡ none) ↔ (cfg.lite_llm_token ≡ [])
unfolding evaluator_of
evaluator_of-none_iff api cfg = elim (Bool-cases (is_empty cfg.lite_llm_token)) [
  | inl off ↦ rw (off, evaluator_of) (λ _. ground arith, λ _. refl)
  | inr on ↦ rw (on, evaluator_of) (λ e. cc e, λ e. ground arith)
]

evaluator_of-IsScoring : (api : ModelApi) (cfg : Config) → IsScoring (evaluator_of api cfg)
unfolding evaluator_of
evaluator_of-IsScoring api cfg = elim (Bool-cases (is_empty cfg.lite_llm_token)) [
  | inl off ↦ rw (off, evaluator_of) tt
  | inr on ↦
      rw (on, evaluator_of)
        (λ expectation input status content_type h r e.
          (evaluate-IsJudgement api
            (new_lite_llm_evaluator cfg.lite_llm_base_url cfg.lite_llm_token cfg.model) expectation
            input status content_type h r e).score)
]

new_file_store-made :
    (make_dir : Text → Result (Unit {0})) (dir stored : Text)
    → new_file_store make_dir dir ≡ ok stored
    → (stored ≡ dir) × (dir ≢ []) × (make_dir dir ≡ ok tt)
unfolding new_file_store
new_file_store-made make_dir dir stored e = elim (Bool-cases (is_empty dir)) [
  | inl none_there ↦ absurd (ground arith)
  | inr named ↦ elim (Result-cases (make_dir dir)) [
    | inr (message, refused) ↦ absurd (ground arith)
    | inl (done, made) ↦ (ground arith, λ empty. ground arith, made)
  ]
]

authorizer-policy :
    (cfg : Config) (a : PaymentAuthorizer)
    → new_payment_authorizer cfg.payment_policy ≡ ok a
    → (a.policy ≡ cfg.payment_policy) × (positive_amount a.policy.max_atomic_amount ≡ some a.max)
unfolding new_payment_authorizer
authorizer-policy cfg a e = (ground arith, ground arith)

pub start-IsReady :
    (make_dir : Text → Result (Unit {0})) (api : ModelApi) (env : Environment) (p : Program)
    → start make_dir api env ≡ ok p
    → IsReady make_dir env p
unfolding start
start-IsReady make_dir api env p e = elim (Result-cases (config_from_env env)) [
  | inr (message, bad) ↦ absurd (ground arith)
  | inl (cfg, read) ↦ elim (Result-cases (new_file_store make_dir cfg.report_dir)) [
    | inr (message, bad) ↦ absurd (ground arith)
    | inl (dir, stored) ↦ elim (Result-cases (new_payment_authorizer cfg.payment_policy)) [
      | inr (message, bad) ↦ absurd (ground arith)
      | inl (a, authorized) ↦
          let configured = config_from_env-IsConfigured env cfg read in
          let (same_policy, cap) = authorizer-policy cfg a authorized in
          let (same_dir, named, made) = new_file_store-made make_dir cfg.report_dir dir stored in
          let same : program_of api cfg dir a ≡ p = ground arith in
          subst (IsReady make_dir env) same (record {
            configuration = cfg;
            read = read;
            directory = same_dir;
            named = λ empty. named (sym same_dir ∙ empty);
            made = ap make_dir same_dir ∙ made;
            guarded = refl;
            own_policy = same_policy;
            consistent =
                subst IsConsistent (sym same_policy) (config_from_env-IsConsistent env cfg read);
            cap = cap;
            judged = evaluator_of-none_iff api cfg;
            scoring = evaluator_of-IsScoring api cfg;
            some_audit = configured.some_audit;
            few_audits = configured.max_audits;
          })
    ]
  ]
]

-- What an audit of the program shows under an environment: it signs and pays only what the request and
-- the payment policy of the environment allow, at most once, and its report has percentages up to 100, a
-- verdict that fits and the right tier.
pub record IsSound (env : Environment) (request : AuditRequest) (out : Outside) (auditor : Auditor)
    (r : Outcome × History) : Type 0 where
  pub configuration : Config
  pub read : config_from_env env ≡ ok configuration
  pub own_policy : auditor.authorizer.policy ≡ configuration.payment_policy
  pub allowed : Allowed request out auditor r.1
  pub signed_once : signature_count r.1 ≤ 1
  pub paid_once : payment_count r.1 ≤ 1
  pub reported : Reports request r.0

-- Every audit of a program that has started, with its own specification review and its own evaluator, is
-- sound, whatever the request is and whatever the outside answers: what it signs pays an option of the
-- challenge that the target answered, within the request and the payment policy of the environment.
pub start-IsSound :
    (make_dir : Text → Result (Unit {0})) (api : ModelApi) (env : Environment) (p : Program)
    (out : Outside) (d : SpecDecoders) (request : AuditRequest)
    → start make_dir api env ≡ ok p
    → IsSound env request out p.auditor
        (audit out (spec_inspector out p.auditor d) p.auditor request [])
start-IsSound make_dir api env p out d request started =
    let ready = start-IsReady make_dir api env p started in
    let inspector = spec_inspector out p.auditor d in
    let quiet = spec_inspector-QuietInspector out p.auditor d in
    let fair = inspector_of-FairInspector (tools_of out) (inspect_specifications out p.auditor d) in
    let (signatures, payments) = audit-once out inspector p.auditor request quiet in
    record {
      configuration = ready.configuration;
      read = ready.read;
      own_policy = ready.own_policy;
      allowed = audit-Allowed out inspector p.auditor request quiet;
      signed_once = signatures;
      paid_once = payments;
      reported = audit-Reports out inspector p.auditor request [] fair ready.scoring;
    }
