-- ===== src/Auditor/Evaluation/Laws.antt =====
-- What `evaluateOutcome` (internal/canary/auditor.go) adds to a report.
use canary.Base.{
  ℕ, ◌≤◌, ◌<◌, Text, pos, is_empty, trim_space, Result, ok, err, Bool-cases, true, Option, none,
  some, [], ◌∷◌, ◌++◌, ◌≡◌, ◌≢◌, ◌↔◌, ◌⊎◌, inl, inr, refl, arith,
}
use canary.Evidence.{preview}
use canary.Report.{AuditRequest, passed, skipped, task_outcome, Check, SemanticResult, AuditReport}
use canary.Effect.{History}
use canary.Auditor.{Auditor, Evaluator}
use canary.Auditor.Evaluation.{
  semantic_outcome_check, status_passed, record_result, ask_evaluator, evaluate_outcome,
}

semantic_outcome_check-passed_iff :
    (r : SemanticResult)
    → ((semantic_outcome_check r).status ≡ passed) ↔ ((r.passed ≡ true) × (50 ≤ r.score))
unfolding semantic_outcome_check
semantic_outcome_check-passed_iff r = ground arith

-- When the answer of the target counts as the outcome that was asked for: the status is the expected
-- one, or 2xx where none is expected, and an expectation in words is confirmed by the evaluator with a
-- score of at least 50.
pub record IsExpected (auditor : Auditor) (request : AuditRequest) (status : ℕ)
    (content_type body : Text) (h : History) : Type 0 where
  pub status_met :
      (request.expected_status ≡ pos status)
      ⊎ ((request.expected_status ≡ pos 0) × (200 ≤ status) × (status < 300))
  pub words_met :
      (trim_space request.expectation ≡ [])
      ⊎ ((evaluate : Evaluator) × (result : SemanticResult) × (auditor.evaluator ≡ some evaluate)
          × (evaluate request.expectation
                (preview body auditor.config.semantic_input_bytes)
                status
                content_type
                h
              ≡ ok result)
          × (result.passed ≡ true)
          × (50 ≤ result.score))

-- The one check that is added, in a report that keeps all but its evaluation.
pub record AddsOutcome (auditor : Auditor) (request : AuditRequest) (status : ℕ)
    (content_type body : Text) (h : History) (before after : AuditReport) : Type 0 where
  pub check : Check
  pub name : check.name ≡ task_outcome
  pub weight : check.weight ≡ 25
  pub assessed : check.status ≢ skipped
  pub added : after.checks ≡ before.checks ++ check ∷ []
  pub kept : record after { checks = before.checks; semantic = before.semantic } ≡ before
  pub passed_iff : (check.status ≡ passed) ↔ IsExpected auditor request status content_type body h

status_passed_iff :
    (request : AuditRequest) (status : ℕ)
    → (status_passed request status ≡ true) ↔ (
        (request.expected_status ≡ pos status)
        ⊎ ((request.expected_status ≡ pos 0) × (200 ≤ status) × (status < 300)))
status_passed_iff request status = ground arith

is_empty_iff : (s : Text) → (is_empty s ≡ true) ↔ (s ≡ [])
is_empty_iff [] = (λ h. refl, λ h. refl)
is_empty_iff (c ∷ s) = (λ h. cc, λ h. cc)

module _ (auditor : Auditor) (request : AuditRequest) (status : ℕ) (content_type body : Text)
    (h : History) (report : AuditReport) where
  abbrev Adds : AuditReport → Type 0
  Adds = AddsOutcome auditor request status content_type body h report

  -- An expectation in words that is met was confirmed by the evaluator.
  words_answer :
      (evaluate : Evaluator) (answer : Result SemanticResult)
      → auditor.evaluator ≡ some evaluate
      → evaluate request.expectation
          (preview body auditor.config.semantic_input_bytes)
          status
          content_type
          h
        ≡ answer
      → trim_space request.expectation ≢ []
      → IsExpected auditor request status content_type body h
      → (r : SemanticResult) × (answer ≡ ok r) × (r.passed ≡ true) × (50 ≤ r.score)
  words_answer evaluate answer configured asked words x = elim x.words_met [
    | inl silent ↦ absurd (words silent)
    | inr (evaluate', r, same, given, accepted, high) ↦ (r, cc, accepted, high)
  ]

  record_result-Adds :
      (evaluate : Evaluator) (answer : Result SemanticResult)
      → auditor.evaluator ≡ some evaluate
      → evaluate request.expectation
          (preview body auditor.config.semantic_input_bytes)
          status
          content_type
          h
        ≡ answer
      → status_passed request status ≡ true
      → trim_space request.expectation ≢ []
      → Adds (record_result report answer)
  unfolding record_result
  record_result-Adds evaluate (err e) configured asked met words = record {
    check = _;
    name = refl;
    weight = refl;
    assessed = λ p. cc;
    added = refl;
    kept = refl;
    passed_iff = (
      λ p. cc,
      λ x. let (r, given, _, _) = words_answer evaluate (err e) configured asked words x in cc,
    );
  }
  record_result-Adds evaluate (ok r) configured asked met words = record {
    check = semantic_outcome_check r;
    name = unfold semantic_outcome_check in ground arith;
    weight = unfold semantic_outcome_check in ground arith;
    assessed = unfold semantic_outcome_check in ground arith;
    added = refl;
    kept = refl;
    passed_iff = (
      λ p.
          let (accepted, high) = (semantic_outcome_check-passed_iff r).0 p in
          record {
            status_met = (status_passed_iff request status).0 met;
            words_met = inr (evaluate, r, configured, asked, accepted, high);
          },
      λ x.
          let (r', same, accepted, high) = words_answer evaluate (ok r) configured asked words x in
          (semantic_outcome_check-passed_iff r).1 (ground arith),
    );
  }

  ask_evaluator-Adds :
      (evaluator : Option Evaluator)
      → auditor.evaluator ≡ evaluator
      → status_passed request status ≡ true
      → trim_space request.expectation ≢ []
      → Adds (ask_evaluator auditor evaluator report request status content_type body h).0
  unfolding ask_evaluator
  ask_evaluator-Adds none configured met words = record {
    check = _;
    name = refl;
    weight = refl;
    assessed = λ p. cc;
    added = refl;
    kept = refl;
    passed_iff = (
      λ p. cc,
      λ x. elim x.words_met [
        | inl silent ↦ absurd (words silent)
        | inr (evaluate, r, same, _, _, _) ↦ cc
      ],
    );
  }
  ask_evaluator-Adds (some evaluate) configured met words =
      record_result-Adds evaluate _ configured refl met words

  -- The evaluation adds exactly one `task_outcome` check of weight 25 that is not skipped, keeps all
  -- else but the evaluator's result, and the check passes exactly if the answer of the target is what
  -- the request expects.
  pub evaluate_outcome-AddsOutcome :
      Adds (evaluate_outcome auditor report request status content_type body h).0
  unfolding evaluate_outcome
  evaluate_outcome-AddsOutcome = elim (Bool-cases (status_passed request status)) [
    | inr unmet ↦
        rw (unmet, evaluate_outcome)
          (record {
            check = _;
            name = refl;
            weight = refl;
            assessed = λ p. cc;
            added = refl;
            kept = refl;
            passed_iff =
                (λ p. cc, λ x. let yet = (status_passed_iff request status).1 x.status_met in cc);
          })
    | inl met ↦ elim (Bool-cases (is_empty (trim_space request.expectation))) [
      | inl silent ↦
          rw (met, silent, evaluate_outcome)
            (record {
              check = _;
              name = refl;
              weight = refl;
              assessed = λ p. cc;
              added = refl;
              kept = refl;
              passed_iff = (
                λ p. record {
                  status_met = (status_passed_iff request status).0 met;
                  words_met = inl ((is_empty_iff _).0 silent);
                },
                λ x. refl,
              );
            })
      | inr words ↦
          rw (met, words, evaluate_outcome)
            (ask_evaluator-Adds auditor.evaluator refl met
              (λ e. cc ((is_empty_iff (trim_space request.expectation)).1 e)))
    ]
  ]
