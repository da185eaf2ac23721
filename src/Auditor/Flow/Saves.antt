-- ===== src/Auditor/Flow/Saves.antt =====
-- The reports that `Audit` (internal/canary/auditor.go) has saved: its operations before the end save
-- nothing.
use canary.Base.{nat_eq, text_eq, ℕ, Text, Result, ok, err, ◌≡◌, refl, arith, Bool, List, [], ◌∷◌}
use canary.Json.{Object}
use canary.Report.{AuditRequest, AuditReport}
use canary.Effect.{Url, History, resolved, saved}
use canary.Payment.{PaymentRequirement}
use canary.Payment.Authorize.{PaymentAuthorizer, Transfer, sign_transfer, authorize}
use canary.Target.{TargetPolicy, Network, validate_url, resolve_and_validate, checked_answer}
use canary.Target.Address.{Addr}
use canary.Auditor.{Outside, Inspector, Auditor}
use canary.Auditor.Requests.{validate_request, build_request, send}
use canary.Auditor.Evaluation.{evaluate_outcome}
use canary.Auditor.Flow.{start_inspection}

-- The reports that were given to the store, the latest first.
abbrev pub saves_of : History → List AuditReport
saves_of [] = []
saves_of (saved report ∷ h) = report ∷ saves_of h
saves_of (_ ∷ h) = saves_of h

-- A specification review that saves no report.
abbrev pub SavesNothing : Inspector → Type 0
SavesNothing inspector =
    (url : Url) (method body : Text) (repairs : Bool) (h : History)
    → saves_of (inspector.inspect url method body repairs h).1 ≡ saves_of h

checked_answer-saves :
    (b : Bool) (answer : Result (List Addr)) (h : History)
    → saves_of (checked_answer b h answer).1 ≡ saves_of h
unfolding checked_answer
checked_answer-saves b (err e) h = refl
checked_answer-saves b (ok []) h = refl
checked_answer-saves b (ok (ip ∷ ips)) h = refl

resolve_and_validate-saves :
    (net : Network) (host : Text) (b : Bool) (h : History)
    → saves_of (resolve_and_validate net host b h).1 ≡ saves_of h
unfolding resolve_and_validate
resolve_and_validate-saves net host b h =
    ground (arith, checked_answer-saves b (net.lookup_net_ip host h) (resolved host ∷ h))

validate_url-saves :
    (net : Network) (policy : TargetPolicy) (raw : Text) (h : History)
    → saves_of (validate_url net policy raw h).1 ≡ saves_of h
unfolding validate_url
validate_url-saves net policy raw h = grind (arith, resolve_and_validate-saves)

module _ (out : Outside) (inspector : Inspector) (auditor : Auditor) where
  pub evaluate_outcome-saves :
      (report : AuditReport) (asked : AuditRequest) (status : ℕ) (content_type body : Text)
      (h : History)
      → saves_of (evaluate_outcome auditor report asked status content_type body h).1 ≡ saves_of h
  unfolding evaluate_outcome
  evaluate_outcome-saves report asked status content_type body h = ground arith

  pub validate_request-saves :
      (request : AuditRequest) (h : History)
      → saves_of (validate_request out auditor request h).1 ≡ saves_of h
  unfolding validate_request
  validate_request-saves request h = grind (arith, validate_url-saves)

  pub send-saves :
      (url : Url) (method : Text) (asked : AuditRequest) (payment : Text × Text) (h : History)
      → saves_of (send out auditor url method asked payment h).1 ≡ saves_of h
  unfolding send build_request
  send-saves url method asked (header, value) h = ground arith

  sign_transfer-saves :
      (r : PaymentRequirement) (extensions : Object) (network : Text) (chain_id : ℕ) (t : Transfer)
      (h : History)
      → saves_of (sign_transfer out.signer out.platform r extensions network chain_id t h).1
        ≡ saves_of h
  unfolding sign_transfer
  sign_transfer-saves r extensions network chain_id t h = ground arith

  pub authorize-saves :
      (a : PaymentAuthorizer) (r : PaymentRequirement) (extensions : Object) (h : History)
      → saves_of (authorize out.signer out.platform a r extensions h).1 ≡ saves_of h
  unfolding authorize
  authorize-saves a r extensions h = grind (arith, sign_transfer-saves)

  pub start_inspection-saves :
      (request : AuditRequest) (url : Url) (method : Text) (h : History)
      → SavesNothing inspector
      → saves_of (start_inspection out inspector auditor request url method h).1 ≡ saves_of h
  unfolding start_inspection
  start_inspection-saves request url method h nothing =
      ground (arith, nothing url method request.body request.generate_repairs h)
