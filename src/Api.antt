-- ===== src/Api.antt =====
-- The HTTP API (internal/canary/httpapi.go): the answers of the handlers for audits and reports, and
-- the semaphore in front of the audits. The headers that every answer carries are left out.
pub mod Capacity
pub mod Answers
pub mod Overlaps
pub mod Serving
pub mod Published
pub mod Pages
use canary.Base.{
  ℕ, suc, ◌-◌, Text, lit, text_eq, nat_eq, has_prefix, ltb, ◌==◌, Result, ok, err, if◌then◌else◌,
  Bool, not, ◌||◌, Option, none, some, List, [], ◌∷◌, ◌++◌,
}
use canary.Evidence.{truncate_text}
use canary.Report.{AuditRequest, AuditReport}
use canary.Effect.{History}
use canary.Auditor.{Outside, Inspector, Auditor}
use canary.Auditor.Checks.{Outcome, completed, invalid, broken}
use canary.Auditor.Flow.{audit}
use canary.Store.{Loaded, found, not_found, unreadable}
use canary.Base.{contains}

-- An answer: `writeJSON` of a report, or `writeError`. The location and the report id are headers.
pub record Answer : Type 0 where
  pub status : ℕ
  pub report : Option AuditReport
  pub error : Text
  pub location : Text
  pub report_id : Text

abbrev pub write_error : ℕ → Text → Answer
write_error status message = record {
  status = status;
  report = none;
  error = message;
  location = [];
  report_id = [];
}

-- `strings.Contains`
contains_text : Text → Text → Bool
contains_text part [] = has_prefix part []
contains_text part (c ∷ s) = has_prefix part (c ∷ s) || contains_text part s

unfoldable pub decode_error : Text → Text
unfolding contains_text
decode_error message =
    if contains_text (lit "http: request body too large") message
    then lit "request exceeds the 96 KiB limit"
    else truncate_text message 240

-- The decoder with `DisallowUnknownFields` behind the limit of 96 KiB, and whether the input ends
-- behind the first value.
pub record RequestDecoder : Type 0 where
  pub decode : Text → Result AuditRequest
  pub ends : Text → Bool

unfoldable pub audit_answer : Outcome → Answer
audit_answer (completed report) = record {
  status = 200;
  report = some report;
  error = [];
  location = lit "/reports/" ++ report.id;
  report_id = report.id;
}
audit_answer (invalid message) = write_error 400 message
audit_answer (broken e) = write_error 500 (lit "could not persist audit report")

-- `audit` behind the semaphore.
unfoldable pub handle_audit :
    RequestDecoder → Outside → Inspector → Auditor → Text → History → Answer × History
handle_audit decoder out inspector auditor body h = elim (decoder.decode body) [
  | err e ↦ (write_error 400 (lit "invalid JSON request: " ++ decode_error e), h)
  | ok request ↦
      if not (decoder.ends body)
      then (write_error 400 (lit "request must contain one JSON object"), h)
      else let (outcome, h') = audit out inspector auditor request h in (audit_answer outcome, h')
]

-- `report`
unfoldable pub report_answer : Loaded → Answer
report_answer (found report) = record {
  status = 200;
  report = some report;
  error = [];
  location = [];
  report_id = [];
}
report_answer not_found = write_error 404 (lit "report not found")
report_answer (unreadable e) = write_error 500 (lit "could not read report")

-- The semaphore: the tokens in the channel, and the audits that hold one.
pub record Server : Type 0 where
  pub tokens : ℕ
  pub running : List ℕ

abbrev pub idle : Server
idle = record { tokens = 0; running = [] }

-- The `select`: a token is put into the channel if it has room.
unfoldable pub try_acquire : ℕ → Server → ℕ → Option Server
try_acquire max server audit_id =
    if ltb server.tokens max
    then some (record { tokens = suc server.tokens; running = audit_id ∷ server.running })
    else none

-- One audit leaves the list.
unfoldable pub leave : ℕ → List ℕ → List ℕ
leave audit_id [] = []
leave audit_id (other ∷ others) =
    let rest = leave audit_id others in if other == audit_id then others else other ∷ rest

-- The deferred receive, when an audit ends, also by a panic.
unfoldable pub release : Server → ℕ → Server
release server audit_id = record {
  tokens = server.tokens - 1;
  running = leave audit_id server.running;
}

-- What another audit does meanwhile: it starts, if there is room for it, or it ends, if it runs.
pub data Step : Type 0 where
  enters : ℕ → Step
  ends : ℕ → Step

unfoldable pub step : ℕ → Server → Step → Server
step max server (enters other) = elim (try_acquire max server other) [
  | none ↦ server
  | some server' ↦ server'
]
step max server (ends other) =
    if contains server.running other then release server other else server

unfoldable pub steps : ℕ → Server → List Step → Server
unfolding step
steps max server [] = server
steps max server (s ∷ more) = steps max (step max server s) more

-- How a handler ends: it returns, or it panics after the outside was asked up to a history.
pub data Ending : Type 0 where
  returns : Ending
  panics : History → Ending

-- The `recover` of `ServeHTTP`.
unfoldable pub recovered : Ending → Answer × History → Answer × History
recovered returns handled = handled
recovered (panics h) handled = (write_error 500 (lit "internal server error"), h)

-- `audit` under `ServeHTTP`, while other audits start and end: the answer, the server after it and the
-- history. However the handler ends, the deferred receive gives the token back.
unfoldable pub serve_audit :
    RequestDecoder
    → Outside
    → Inspector
    → Auditor
    → ℕ
    → Server
    → ℕ
    → Text
    → Ending
    → List Step
    → History
    → Answer × Server × History
unfolding steps recovered
serve_audit decoder out inspector auditor max server audit_id body ending meanwhile h =
    elim (try_acquire max server audit_id) [
      | none ↦ (write_error 429 (lit "audit capacity is currently full"), server, h)
      | some server' ↦
          let (answer, h') = recovered ending (handle_audit decoder out inspector auditor body h) in
          (answer, release (steps max server' meanwhile) audit_id, h')
    ]
