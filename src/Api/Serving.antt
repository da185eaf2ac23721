-- ===== src/Api/Serving.antt =====
-- `POST /audit` with the semaphore (internal/canary/httpapi.go).
use canary.Base.{ℕ, nat_eq, Text, length, Option-cases, ◌≡◌, ◌≢◌, ◌↔◌, inl, inr, refl, arith, some}
use canary.Effect.{History}
use canary.Auditor.{Outside, Inspector, Auditor}
use canary.Auditor.Checks.{Outcome, completed, invalid, broken}
use canary.Api.{
  Answer, RequestDecoder, audit_answer, handle_audit, Server, try_acquire, leave, serve_audit,
}
use canary.Api.Capacity.{Reachable, try_acquire-none_iff}
use canary.Base.{List, All, ◌-◌}
use canary.Api.{Step, steps, Ending, returns, panics, recovered}
use canary.Api.Overlaps.{IsOther, HasOneMore, steps-release}
use canary.Api.Capacity.{Reachable-IsCounted}

audit_answer-ne-429 : (outcome : Outcome) → (audit_answer outcome).status ≢ 429
unfolding audit_answer
audit_answer-ne-429 (completed report) e = omega arith
audit_answer-ne-429 (invalid message) e = omega arith
audit_answer-ne-429 (broken message) e = omega arith

recovered-ne-429 :
    (ending : Ending) (handled : Answer × History)
    → handled.0.status ≢ 429
    → (recovered ending handled).0.status ≢ 429
unfolding recovered
recovered-ne-429 returns handled differ = differ
recovered-ne-429 (panics h) handled differ = λ e. omega (arith, e)

acquire-HasOneMore :
    (max audit_id : ℕ) {server server' : Server}
    → Reachable max server
    → try_acquire max server audit_id ≡ some server'
    → HasOneMore audit_id server' server
unfolding try_acquire leave
acquire-HasOneMore max audit_id {server} {server'} r e =
    let (counted, bounded) = Reachable-IsCounted max r in
    record { tokens = ground arith; left = ground arith; counted = counted }

-- What is served, while other audits start and end: the answer tells that there is no room exactly if the
-- maximum of audits runs, in which case nothing is asked of the outside and the server is as before; else
-- the server is afterwards as if only the others had run, in one place fewer.
pub record IsServed (max : ℕ) (server : Server) (meanwhile : List Step) (h : History)
    (r : Answer × Server × History) : Type 0 where
  pub refused : (r.0.status ≡ 429) ↔ (length server.running ≡ max)
  pub untouched : r.0.status ≡ 429 → (r.1 ≡ server) × (r.2 ≡ h)
  pub restored : r.0.status ≢ 429 → r.1 ≡ steps (max - 1) server meanwhile

module _ (decoder : RequestDecoder) (out : Outside) (inspector : Inspector)
    (auditor : Auditor) where
  handle_audit-ne-429 :
      (body : Text) (h : History)
      → (handle_audit decoder out inspector auditor body h).0.status ≢ 429
  unfolding handle_audit
  handle_audit-ne-429 body h e = grind (arith, audit_answer-ne-429)

  -- In every state that is reached, `POST /audit` answers 429 exactly if the maximum of audits runs, and
  -- then asks nothing of the outside and leaves the server as it is. Else the token it took is given back
  -- however it ends, by an answer or by a panic, and whichever other audits start and end meanwhile: the
  -- server is as the others alone would have left it in one place fewer.
  pub serve_audit-IsServed :
      (max audit_id : ℕ) (body : Text) (ending : Ending) (meanwhile : List Step) (h : History)
      {server : Server}
      → Reachable max server
      → All (IsOther audit_id) meanwhile
      → IsServed max server meanwhile h
          (serve_audit decoder out inspector auditor max server audit_id body ending meanwhile h)
  unfolding serve_audit
  serve_audit-IsServed max audit_id body ending meanwhile h {server} r others =
      let (full, room) = try_acquire-none_iff max audit_id r in
      let answers =
        recovered-ne-429 ending (handle_audit decoder out inspector auditor body h)
          (handle_audit-ne-429 body h) in
      elim (Option-cases (try_acquire max server audit_id)) [
        | inl e ↦
            rw (e, serve_audit)
              (record {
                refused = (λ _. full e, λ _. refl);
                untouched = λ _. (refl, refl);
                restored = λ differ. absurd (differ refl);
              })
        | inr (server', e) ↦
            rw (e, serve_audit)
              (record {
                refused = (λ answered. absurd (answers answered), λ busy. cc (room busy));
                untouched = λ answered. absurd (answers answered);
                restored = λ _.
                    steps-release max audit_id server' server meanwhile others
                      (acquire-HasOneMore max audit_id r e);
              })
      ]
