-- ===== src/Api/Answers.antt =====
-- The answers of `POST /audit` (internal/canary/httpapi.go).
use canary.Base.{Text, ok, Result-cases, Bool-cases, ◌≡◌, ◌↔◌, inl, inr, refl, subst, arith, true}
use canary.Report.{AuditRequest, AuditReport}
use canary.Effect.{History}
use canary.Auditor.{Outside, Inspector, Auditor}
use canary.Auditor.Checks.{Outcome, completed, invalid, broken}
use canary.Auditor.Flow.{audit}
use canary.Api.{RequestDecoder, audit_answer, handle_audit}

-- A body that holds one request.
abbrev pub Holds : RequestDecoder → Text → AuditRequest → Type 0
Holds decoder body request = (decoder.decode body ≡ ok request) × (decoder.ends body ≡ true)

audit_answer-ok_iff :
    (outcome : Outcome)
    → ((audit_answer outcome).status ≡ 200)
      ↔ ((report : AuditReport) × (outcome ≡ completed report))
unfolding audit_answer
audit_answer-ok_iff (completed report) = (λ h. (report, refl), λ h. refl)
audit_answer-ok_iff (invalid e) = (λ h. absurd (omega (arith, h)), λ (report, h). absurd (cc))
audit_answer-ok_iff (broken e) = (λ h. absurd (omega (arith, h)), λ (report, h). absurd (cc))

module _ (decoder : RequestDecoder) (out : Outside) (inspector : Inspector)
    (auditor : Auditor) where
  -- The answer has status 200 exactly if the body holds one request and the audit of that request
  -- completes.
  pub handle_audit-ok_iff :
      (body : Text) (h : History)
      → ((handle_audit decoder out inspector auditor body h).0.status ≡ 200) ↔ (
          (request : AuditRequest) × (report : AuditReport) × Holds decoder body request
          × ((audit out inspector auditor request h).0 ≡ completed report))
  unfolding handle_audit
  handle_audit-ok_iff body h = elim (Result-cases (decoder.decode body)) [
    | inr (e, bad) ↦
        rw (bad, handle_audit)
          (
            λ p. absurd (omega (arith, p)),
            λ (request, report, (read, ended), done). absurd (cc read),
          )
    | inl (request, read) ↦ elim (Bool-cases (decoder.ends body)) [
      | inr more ↦
          rw (read, more, handle_audit)
            (
              λ p. absurd (omega (arith, p)),
              λ (request', report, (read', ended), done). absurd (cc ended),
            )
      | inl ended ↦
          rw (read, ended, handle_audit)
            (
              λ p.
                  let (report, done) = (audit_answer-ok_iff _).0 p in
                  (request, report, (refl, refl), done),
              λ (request', report, (read', ended'), done).
                  let same : request' ≡ request = cc in
                  (audit_answer-ok_iff _).1 (
                    report,
                    subst (λ q. (audit out inspector auditor q h).0 ≡ completed report) same done,
                  ),
            )
    ]
  ]
