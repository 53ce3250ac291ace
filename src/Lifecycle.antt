-- ===== src/Lifecycle.antt =====
-- `event_projection` of backend/src/services/mod.rs: what an appended event does to its run.
use aleth_os_tool_passport.Prelude.{
  ℕ, zero, suc, ◌+◌, ◌-◌, ◌*◌, ◌/◌, ◌%◌, ◌^◌, ◌≤◌, ◌<◌, min, ◌≡◌, refl, ◌≢◌, ◌⊎◌, inl, inr, Bool,
  true, false, not, ◌&&◌, ◌||◌, Option, none, some, List, [], ◌∷◌, ◌++◌, map, arith, ltb, leb, ◌==◌,
  if◌then◌else◌, Text, codes, ◌=ₜ◌, =ₜ_iff, =ₜ_refl, is_empty, trim, Result, ok, err, ◌>>=◌, ◌>>◌,
  refuse, ok_or, map_err, Message, format, says, All, any, all, find, keep, length, is_some,
  Bool-cases, Option-cases,
}
pub mod Graph
use aleth_os_tool_passport.Domain.Run
use aleth_os_tool_passport.Domain.Run.{
  Run, RunStatus, pending, running, success, failed, waiting_approval, cancelled, same_status,
}
use aleth_os_tool_passport.Domain.RunEvent
use aleth_os_tool_passport.Domain.RunEvent.{
  Fields, as_text, RunEventType, AppendRunEventRequest, run_created, run_status_changed,
  node_started, node_finished, approval_required, approval_resolved, attestation_submitted,
  attestation_confirmed, evidence_board_frozen, score_changed, provenance_frozen,
}
use aleth_os_tool_passport.Errors.{ServiceError, invalid_request}

pub record EventProjection : Type 0 where
  pub status : Option RunStatus
  pub current_node : Option Text

abbrev pub unchanged : EventProjection
unchanged = record { status = none; current_node = none }

abbrev bad_terminal : ServiceError
bad_terminal = invalid_request (says "run_status_changed payload.status must be success or failed")

terminal : RunStatus → Result ServiceError RunStatus
terminal success = ok success
terminal failed = ok failed
terminal _ = err bad_terminal

-- `payload.get("status").and_then(Value::as_str).and_then(RunStatus::parse)`
unfoldable pub payload_status : Fields → Option RunStatus
payload_status payload = elim (RunEvent.get (codes "status") payload) [
  | none ↦ none
  | some v ↦ elim (as_text v) [ none ↦ none | some s ↦ Run.parse s ]
]

unfoldable pub requested_terminal_status : Fields → Result ServiceError RunStatus
unfolding terminal
requested_terminal_status payload = do
  status ← ok_or bad_terminal (payload_status payload)
  terminal status

abbrev allowed_terminal : RunStatus → RunStatus → Bool
allowed_terminal pending failed = true
allowed_terminal running success = true
allowed_terminal running failed = true
allowed_terminal waiting_approval failed = true
allowed_terminal _ _ = false

unfoldable pub ensure_terminal_transition : RunStatus → RunStatus → Result ServiceError (Unit {0})
ensure_terminal_transition from to =
    if allowed_terminal from to
    then ok tt
    else err (
        invalid_request (
          format "run status cannot transition from {} to {}"
            (Run.as_str from ∷ Run.as_str to ∷ [])))

unfoldable pub ensure_status : RunStatus → List RunStatus → Result ServiceError (Unit {0})
ensure_status current allowed =
    if any (same_status current) allowed
    then ok tt
    else err (
        invalid_request
          (format "event is not allowed while run status is {}" (Run.as_str current ∷ [])))

-- the types of events that only the trust core writes
unfoldable pub is_generated : RunEventType → Bool
is_generated run_created = true
is_generated evidence_board_frozen = true
is_generated score_changed = true
is_generated approval_resolved = true
is_generated attestation_submitted = true
is_generated attestation_confirmed = true
is_generated provenance_frozen = true
is_generated _ = false

-- the arms of the `match` for the other types
project : RunEventType → Run → AppendRunEventRequest → Result ServiceError EventProjection
unfolding ensure_status ensure_terminal_transition requested_terminal_status
project node_started run request = do
  ensure_status run.status (pending ∷ running ∷ [])
  ok (record {
    status = if same_status run.status pending then some running else none;
    current_node = some (trim request.node_id);
  })
project node_finished run request = do
  ensure_status run.status (running ∷ [])
  ok (record { status = none; current_node = some (trim request.node_id) })
project approval_required run request = do
  ensure_status run.status (running ∷ [])
  ok (record { status = some waiting_approval; current_node = some (trim request.node_id) })
project run_status_changed run request = do
  status ← requested_terminal_status request.payload
  ensure_terminal_transition run.status status
  ok (record { status = some status; current_node = some (trim request.node_id) })
project _ run request = ok unchanged

unfoldable pub event_projection : Run → AppendRunEventRequest → Result ServiceError EventProjection
unfolding project is_generated
event_projection run request =
    if is_generated request.event_type
    then err (
        invalid_request (
          format "{} is generated by the Rust trust core"
            (RunEvent.as_str request.event_type ∷ [])))
    else project request.event_type run request
