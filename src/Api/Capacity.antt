-- ===== src/Api/Capacity.antt =====
-- The states of the semaphore in front of the audits (internal/canary/httpapi.go).
use canary.Base.{
  ℕ, suc, ◌≤◌, nat_eq, length, ◌≡◌, ◌↔◌, refl, arith, none, some, List, [], ◌∷◌, Any, first, later,
}
use canary.Api.{Server, idle, try_acquire, leave, release}

-- What may happen to a server that allows `max` audits at once, in any order: an audit starts if it
-- gets a token, is refused otherwise, or one that runs ends.
pub data Reachable (max : ℕ) : Server → Type 0 where
  start : Reachable max idle
  enter :
      {server server' : Server} (audit_id : ℕ)
      → Reachable max server
      → try_acquire max server audit_id ≡ some server'
      → Reachable max server'
  finish :
      {server : Server} (audit_id : ℕ)
      → Reachable max server
      → Any (λ other. other ≡ audit_id) server.running
      → Reachable max (release server audit_id)

abbrev pub IsCounted : ℕ → Server → Type 0
IsCounted max server = (server.tokens ≡ length server.running) × (server.tokens ≤ max)

pub length-leave :
    (audit_id : ℕ) (running : List ℕ)
    → Any (λ other. other ≡ audit_id) running
    → suc (length (leave audit_id running)) ≡ length running
unfolding leave
length-leave audit_id [] h = elim h [ ]
length-leave audit_id (other ∷ others) (first same) = ground arith
length-leave audit_id (other ∷ others) (later more) =
    ground (arith, length-leave audit_id others more)

-- In every state that is reached, the tokens are as many as the audits that run, and at most the
-- maximum.
pub Reachable-IsCounted : (max : ℕ) {server : Server} → Reachable max server → IsCounted max server
unfolding try_acquire release
Reachable-IsCounted max start = (refl, omega arith)
Reachable-IsCounted max (enter {server} {server'} audit_id r h) =
    let (counted, bounded) = Reachable-IsCounted max r in (ground arith, ground arith)
Reachable-IsCounted max (finish {server} audit_id r h) =
    let (counted, bounded) = Reachable-IsCounted max r in
    let left = length-leave audit_id server.running h in
    (omega (arith, counted, left), omega (arith, bounded))

-- In every state that is reached, an audit is refused exactly if the maximum of audits runs.
pub try_acquire-none_iff :
    (max audit_id : ℕ) {server : Server}
    → Reachable max server
    → (try_acquire max server audit_id ≡ none) ↔ (length server.running ≡ max)
unfolding try_acquire
try_acquire-none_iff max audit_id {server} r =
    let (counted, bounded) = Reachable-IsCounted max r in (λ h. ground arith, λ h. ground arith)
