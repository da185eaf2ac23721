-- ===== src/Auditor/Flow/Saved.antt =====
-- The report that `Audit` (internal/canary/auditor.go) returns is the one that it saved last.
use canary.Base.{nat_eq, text_eq, ok, ◌≡◌, arith, Option, ◌∷◌}
use canary.Report.{AuditRequest, AuditReport}
use canary.Effect.{History, saved}
use canary.Payment.{PaymentChallenge}
use canary.Auditor.{Outside, Inspector, Auditor}
use canary.Auditor.Checks.{Outcome, completed}
use canary.Auditor.Requests.{validate_request}
use canary.Auditor.Completion.{Job, complete}
use canary.Auditor.Flow.{audit}
use canary.Auditor.Flow.Saves.{
  saves_of, SavesNothing, evaluate_outcome-saves, validate_request-saves, send-saves,
  authorize-saves, start_inspection-saves,
}
use canary.Base.{List, ◌∙◌}
use canary.Auditor.Flow.Stages.{Steps, audit-holds, audit-refused}
use canary.Base.{Result-cases, inl, inr}

-- A report that is returned was saved by the last call to the outside, after the given saves, and the
-- store took it.
abbrev pub IsSaved : Outside → List AuditReport → Outcome × History → Type 0
IsSaved out before r =
    (report : AuditReport)
    → r.0 ≡ completed report
    → (h : History) × (r.1 ≡ saved report ∷ h) × (out.save report h ≡ ok tt) × (saves_of h ≡ before)

module _ (out : Outside) (inspector : Inspector) (auditor : Auditor)
    (before : List AuditReport) where
  complete-IsSaved :
      (report : AuditReport) (job : Job out inspector auditor) (challenge : Option PaymentChallenge)
      (h : History)
      → saves_of h ≡ before
      → IsSaved out before (complete out inspector auditor report job challenge h)
  unfolding complete
  complete-IsSaved report job challenge h w final e = (h, ground arith, ground arith, w)

  abbrev Since : History → Type 0
  Since h = saves_of h ≡ before

  saving : SavesNothing inspector → Steps out inspector auditor Since (IsSaved out before)
  saving nothing = record {
    at_end = complete-IsSaved;
    evaluates = λ report asked status type body h w.
        evaluate_outcome-saves out inspector auditor report asked status type body h ∙ w;
    sends = λ url method asked payment h w.
        send-saves out inspector auditor url method asked payment h ∙ w;
    authorizes = λ r extensions h w.
        authorize-saves out inspector auditor auditor.authorizer r extensions h ∙ w;
    inspects = λ request url method h w.
        start_inspection-saves out inspector auditor request url method h nothing ∙ w;
  }

-- The report of an audit that completes is the last that is saved, and the only one since its start.
pub audit-IsSaved :
    (out : Outside) (inspector : Inspector) (auditor : Auditor) (request : AuditRequest)
    (h : History)
    → SavesNothing inspector
    → IsSaved out (saves_of h) (audit out inspector auditor request h)
audit-IsSaved out inspector auditor request h nothing =
    elim (Result-cases (validate_request out auditor request h).0) [
      | inr (e, bad) ↦ λ report same.
          absurd (grind (arith, same, audit-refused out inspector auditor request h e bad))
      | inl ((url, method), valid) ↦
          audit-holds out inspector auditor (Since out inspector auditor (saves_of h))
            (IsSaved out (saves_of h)) (saving out inspector auditor (saves_of h) nothing) request h
            url method valid (λ e failed report same. absurd (cc same))
            (validate_request-saves out inspector auditor request h)
    ]
