-- ===== src/Auditor/Flow/Faults.antt =====
-- The errors that `Audit` (internal/canary/auditor.go) returns.
use canary.Base.{
  nat_eq, text_eq, Text, lit, ◌++◌, err, ◌≡◌, ◌≢◌, ◌↔◌, refl, Option, ◌∷◌, Result-cases, inl, inr,
}
use canary.Report.{AuditRequest, AuditReport}
use canary.Effect.{History, saved}
use canary.Auditor.{Outside, Inspector, Auditor}
use canary.Auditor.Checks.{Outcome, completed, broken, invalid}
use canary.Auditor.Requests.{validate_request}
use canary.Auditor.Completion.{Job, complete}
use canary.Auditor.Flow.{audit}
use canary.Auditor.Flow.Stages.{Steps, audit-holds, audit-refused}
use canary.Payment.{PaymentChallenge}
use canary.Base.{ap, sym, ◌∙◌}
use canary.Auditor.Scoring.{finalize_report}
use canary.Auditor.Completion.{add_review}

-- Why a valid request is not answered: there was no report id, and nothing was asked of the outside since
-- the validation; or the last call to the outside was to save the report, and the store refused it.
pub data Cause (out : Outside) (since : History) (e : Text) : History → Type 0 where
  unnamed :
      (message : Text)
      → e ≡ lit "generate report id: " ++ message
      → out.report_bytes since ≡ err message
      → Cause out since e since
  unsaved :
      (report : AuditReport) (h : History)
      → out.save report h ≡ err e
      → Cause out since e (saved report ∷ h)

-- What the errors of an audit tell.
pub record Faults (out : Outside) (auditor : Auditor) (request : AuditRequest) (h : History)
    (r : Outcome × History) : Type 0 where
  pub refused :
      (e : Text) → (r.0 ≡ invalid e) ↔ ((validate_request out auditor request h).0 ≡ err e)
  pub unasked : (e : Text) → r.0 ≡ invalid e → r.1 ≡ (validate_request out auditor request h).1
  pub lost :
      (e : Text) → r.0 ≡ broken e → Cause out (validate_request out auditor request h).1 e r.1

-- Behind the validation.
record Later (out : Outside) (since : History) (r : Outcome × History) : Type 0 where
  valid : (e : Text) → r.0 ≢ invalid e
  lost : (e : Text) → r.0 ≡ broken e → Cause out since e r.1

abbrev AnyHistory : History → Type 0
AnyHistory h = Unit

completed-ne-broken : (report : AuditReport) (e : Text) → completed report ≢ broken e
completed-ne-broken report e same = cc

invalid-ne-broken : (e e' : Text) → invalid e ≢ broken e'
invalid-ne-broken e e' same = cc

invalid_message : (e e' : Text) → invalid e ≡ invalid e' → e ≡ e'
invalid_message e e' same = cc

broken_message : (e e' : Text) → broken e ≡ broken e' → e ≡ e'
broken_message e e' same = cc

module _ (out : Outside) (inspector : Inspector) (auditor : Auditor) (since : History) where
  complete-lost :
      (report : AuditReport) (job : Job out inspector auditor) (challenge : Option PaymentChallenge)
      (h : History)
      → Later out since (complete out inspector auditor report job challenge h)
  unfolding complete
  complete-lost report job challenge h =
      let final = finalize_report (add_review out inspector auditor report job challenge) in
      elim (Result-cases (out.save final h)) [
        | inl (_, kept) ↦
            rw (kept, complete)
              (record {
                valid = λ e same. cc same;
                lost = λ e same. absurd (completed-ne-broken final e same);
              })
        | inr (message, failed) ↦
            rw (failed, complete)
              (record {
                valid = λ e same. cc same;
                lost = λ e same. unsaved final h (failed ∙ ap err (broken_message message e same));
              })
      ]

  steps : Steps out inspector auditor AnyHistory (Later out since)
  steps = record {
    at_end = λ report job challenge h w. complete-lost report job challenge h;
    evaluates = λ report asked status type body h w. tt;
    sends = λ url method asked payment h w. tt;
    authorizes = λ r extensions h w. tt;
    inspects = λ request url method h w. tt;
  }

  unnamed-lost :
      (e : Text)
      → out.report_bytes since ≡ err e
      → Later out since (broken (lit "generate report id: " ++ e), since)
  unnamed-lost e failed = record {
    valid = λ e' same. cc same;
    lost = λ e' same. unnamed e (sym (broken_message _ e' same)) failed;
  }

-- An audit answers that the request is invalid exactly if the validation refuses it, with the message of
-- the validation and asking the outside nothing more; any other error means that there was no report id,
-- or that the last call was to save the report and the store refused it.
pub audit-Faults :
    (out : Outside) (inspector : Inspector) (auditor : Auditor) (request : AuditRequest)
    (h : History)
    → Faults out auditor request h (audit out inspector auditor request h)
audit-Faults out inspector auditor request h =
    let since = (validate_request out auditor request h).1 in
    elim (Result-cases (validate_request out auditor request h).0) [
      | inr (e, bad) ↦ rw (audit-refused out inspector auditor request h e bad) (record {
        refused = λ e'. (λ same. bad ∙ ap err (invalid_message e e' same), λ bad'. cc (bad, bad'));
        unasked = λ e' same. refl;
        lost = λ e' same. absurd (invalid-ne-broken e e' same);
      })
      | inl ((url, method), valid) ↦
          let later =
            audit-holds out inspector auditor AnyHistory (Later out since)
              (steps out inspector auditor since) request h url method valid
              (unnamed-lost out inspector auditor since) tt in
          record {
            refused = λ e. (λ same. absurd (later.valid e same), λ bad. absurd (cc (valid, bad)));
            unasked = λ e same. absurd (later.valid e same);
            lost = later.lost;
          }
    ]
