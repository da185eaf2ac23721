-- ===== src/Api/Overlaps.antt =====
-- Audits that start and end while another one runs (the semaphore of internal/canary/httpapi.go).
use canary.Base.{
  ℕ, suc, ◌-◌, nat_eq, length, contains, ◌≡◌, ◌≢◌, ◌∙◌, refl, sym, ap, arith, Bool-cases, true, inl,
  inr, List, [], ◌∷◌, Any, first, later, All,
}
use canary.Api.{Server, Step, enters, ends, step, steps, try_acquire, leave, release}
use canary.Api.Capacity.{length-leave}

-- The step is one of another audit.
abbrev pub IsOther : ℕ → Step → Type 0
IsOther audit_id (enters other) = other ≢ audit_id
IsOther audit_id (ends other) = other ≢ audit_id

leave-other_contains :
    (audit_id other : ℕ) (running : List ℕ)
    → other ≢ audit_id
    → contains (leave audit_id running) other ≡ contains running other
unfolding leave
leave-other_contains audit_id other [] differ = refl
leave-other_contains audit_id other (x ∷ xs) differ =
    ground (arith, leave-other_contains audit_id other xs differ)

leave-leave :
    (audit_id other : ℕ) (running : List ℕ)
    → other ≢ audit_id
    → leave audit_id (leave other running) ≡ leave other (leave audit_id running)
unfolding leave
leave-leave audit_id other [] differ = refl
leave-leave audit_id other (x ∷ xs) differ = ground (arith, leave-leave audit_id other xs differ)

contains_sound :
    (running : List ℕ) (other : ℕ) → contains running other ≡ true → Any (λ x. x ≡ other) running
contains_sound [] other h = absurd (cc h)
contains_sound (x ∷ xs) other h = elim (nat_eq.dec other x) [
  | yes same ↦ first (sym same)
  | no differ ↦ later (contains_sound xs other (ground arith))
]

-- The first server is the second with one audit more.
pub record HasOneMore (audit_id : ℕ) (with_it without_it : Server) : Type 0 where
  pub tokens : with_it.tokens ≡ suc without_it.tokens
  pub left : leave audit_id with_it.running ≡ without_it.running
  pub counted : without_it.tokens ≡ length without_it.running

module _ (max audit_id : ℕ) where
  step-HasOneMore :
      (server' server : Server) (s : Step)
      → IsOther audit_id s
      → HasOneMore audit_id server' server
      → HasOneMore audit_id (step max server' s) (step (max - 1) server s)
  unfolding step try_acquire release leave
  step-HasOneMore server' server (enters other) differ more =
      let a = more.tokens in
      let b = more.left in
      let c = more.counted in
      record { tokens = ground arith; left = ground arith; counted = ground arith }
  step-HasOneMore server' server (ends other) differ more =
      let a = more.tokens in
      let b = more.left in
      let c = more.counted in
      let same : contains server'.running other ≡ contains server.running other =
        sym (leave-other_contains audit_id other server'.running differ)
        ∙ ap (λ xs. contains xs other) b in
      let swap = leave-leave audit_id other server'.running differ in
      elim (Bool-cases (contains server.running other)) [
        | inr absent ↦ record { tokens = ground arith; left = ground arith; counted = ground arith }
        | inl there ↦
            let counts =
              length-leave other server.running (contains_sound server.running other there) in
            record { tokens = ground arith; left = ground arith; counted = ground arith }
      ]

  pub steps-release :
      (server' server : Server) (meanwhile : List Step)
      → All (IsOther audit_id) meanwhile
      → HasOneMore audit_id server' server
      → release (steps max server' meanwhile) audit_id ≡ steps (max - 1) server meanwhile
  unfolding steps release
  steps-release server' server [] differ more =
      let tokens = more.tokens in let left = more.left in ground arith
  steps-release server' server (s ∷ meanwhile) (differ, differs) more =
      steps-release (step max server' s) (step (max - 1) server s) meanwhile differs
        (step-HasOneMore server' server s differ more)
