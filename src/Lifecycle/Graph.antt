-- ===== src/Lifecycle/Graph.antt =====
-- What an event may do to its run, as a table that does not follow `event_projection`.
use aleth_os_tool_passport.Prelude.{
  ◌≡◌, ◌↔◌, refl, ◌∙◌, ap, inl, inr, Option, none, some, arith, Text, codes, ok, trim, Option-cases,
}
use aleth_os_tool_passport.Domain.Run.{
  Run, RunStatus, pending, running, success, failed, waiting_approval, as_str, parse,
}
use aleth_os_tool_passport.Domain.RunEvent.{
  Fields, Value, null, bool, num, other_num, str, arr, obj, get, as_text, AppendRunEventRequest,
  RunEventType, run_status_changed, node_started, node_finished, artifact_created, evidence_created,
  approval_required, error, profile_selected, hypothesis_created, hypothesis_updated,
  research_query_planned, gap_detected, evidence_linked, claim_contradicted, review_issue_found,
  directives_accepted, human_feedback_received,
}
use aleth_os_tool_passport.Domain.Codecs.{parse-as_str_iff}
use aleth_os_tool_passport.Lifecycle.{
  EventProjection, unchanged, event_projection, payload_status, requested_terminal_status,
  ensure_terminal_transition, ensure_status, is_generated,
}

-- the types of events that are noted and leave the run alone
pub data IsNote : RunEventType → Type 0 where
  of_artifact : IsNote artifact_created
  of_evidence : IsNote evidence_created
  of_error : IsNote error
  of_profile : IsNote profile_selected
  of_hypothesis : IsNote hypothesis_created
  of_update : IsNote hypothesis_updated
  of_query : IsNote research_query_planned
  of_gap : IsNote gap_detected
  of_link : IsNote evidence_linked
  of_contradiction : IsNote claim_contradicted
  of_issue : IsNote review_issue_found
  of_directives : IsNote directives_accepted
  of_feedback : IsNote human_feedback_received

-- the payload asks for a status
abbrev pub Asks : Fields → RunStatus → Type 0
Asks payload s = get (codes "status") payload ≡ some (str (as_str s))

-- the run moves to a node, and to a status
abbrev pub moves : Option RunStatus → Text → EventProjection
moves status node = record { status = status; current_node = some node }

-- An event of a type, on a run in a status, with what it does. The types that have no line here
-- are refused.
pub data Effect (node : Text) (payload : Fields)
    : RunEventType → RunStatus → EventProjection → Type 0 where
  start : Effect node payload node_started pending (moves (some running) node)
  go_on : Effect node payload node_started running (moves none node)
  leave : Effect node payload node_finished running (moves none node)
  ask : Effect node payload approval_required running (moves (some waiting_approval) node)
  abort :
      Asks payload failed
      → Effect node payload run_status_changed pending (moves (some failed) node)
  finish :
      Asks payload success
      → Effect node payload run_status_changed running (moves (some success) node)
  break :
      Asks payload failed
      → Effect node payload run_status_changed running (moves (some failed) node)
  withdraw :
      Asks payload failed
      → Effect node payload run_status_changed waiting_approval (moves (some failed) node)
  note : {t : RunEventType} {s : RunStatus} → IsNote t → Effect node payload t s unchanged

status_text :
    (v : Value) (s : RunStatus)
    → (elim (as_text v) [ none ↦ none | some t ↦ parse t ]) ≡ some s
    → v ≡ str (as_str s)
status_text null s h = ground arith
status_text (bool b) s h = ground arith
status_text (num n) s h = ground arith
status_text (other_num n) s h = ground arith
status_text (str t) s h = ap str (((parse-as_str_iff t).0 s).0 h)
status_text (arr vs) s h = ground arith
status_text (obj fs) s h = ground arith

payload_status-Asks :
    (payload : Fields) (s : RunStatus) → payload_status payload ≡ some s → Asks payload s
unfolding payload_status
payload_status-Asks payload s h = elim (Option-cases (get (codes "status") payload)) [
  | inl nothing ↦ ground arith
  | inr (v, found) ↦ found ∙ ap some (status_text v s (ground arith))
]

Asks-payload_status :
    (payload : Fields) (s : RunStatus) → Asks payload s → payload_status payload ≡ some s
unfolding payload_status
Asks-payload_status payload s h =
    let back = ((parse-as_str_iff (as_str s)).0 s).1 refl in rw (payload_status, h) back

accepted-Effect :
    (run : Run) (request : AppendRunEventRequest) (p : EventProjection)
    → event_projection run request ≡ ok p
    → Effect (trim request.node_id) request.payload request.event_type run.status p
unfolding event_projection requested_terminal_status ensure_terminal_transition ensure_status
accepted-Effect run request p h = grind (
  arith, payload_status-Asks, start, go_on, leave, ask, abort, finish, break, withdraw, note,
  of_artifact, of_evidence, of_error, of_profile, of_hypothesis, of_update, of_query, of_gap,
  of_link, of_contradiction, of_issue, of_directives, of_feedback,
)

note-accepted :
    (run : Run) (request : AppendRunEventRequest) {t : RunEventType}
    → IsNote t
    → request.event_type ≡ t
    → event_projection run request ≡ ok unchanged
unfolding event_projection is_generated
note-accepted run request of_artifact e = rw (event_projection, e) refl
note-accepted run request of_evidence e = rw (event_projection, e) refl
note-accepted run request of_error e = rw (event_projection, e) refl
note-accepted run request of_profile e = rw (event_projection, e) refl
note-accepted run request of_hypothesis e = rw (event_projection, e) refl
note-accepted run request of_update e = rw (event_projection, e) refl
note-accepted run request of_query e = rw (event_projection, e) refl
note-accepted run request of_gap e = rw (event_projection, e) refl
note-accepted run request of_link e = rw (event_projection, e) refl
note-accepted run request of_contradiction e = rw (event_projection, e) refl
note-accepted run request of_issue e = rw (event_projection, e) refl
note-accepted run request of_directives e = rw (event_projection, e) refl
note-accepted run request of_feedback e = rw (event_projection, e) refl

accepted_at :
    (run : Run) (request : AppendRunEventRequest) {t : RunEventType} {s : RunStatus}
    {p : EventProjection}
    → Effect (trim request.node_id) request.payload t s p
    → request.event_type ≡ t
    → run.status ≡ s
    → event_projection run request ≡ ok p
unfolding event_projection requested_terminal_status ensure_terminal_transition ensure_status
    is_generated
accepted_at run request start e f = rw (event_projection, e, f) refl
accepted_at run request go_on e f = rw (event_projection, e, f) refl
accepted_at run request leave e f = rw (event_projection, e, f) refl
accepted_at run request ask e f = rw (event_projection, e, f) refl
accepted_at run request (abort a) e f =
    let g = Asks-payload_status request.payload failed a in ground arith
accepted_at run request (finish a) e f =
    let g = Asks-payload_status request.payload success a in ground arith
accepted_at run request (break a) e f =
    let g = Asks-payload_status request.payload failed a in ground arith
accepted_at run request (withdraw a) e f =
    let g = Asks-payload_status request.payload failed a in ground arith
accepted_at run request (note n) e f = note-accepted run request n e

-- event_projection accepts a request with a change exactly if the table of effects has a line for
-- it. The lines are: node_started moves a pending run to running, and a running one to the node
-- only; node_finished moves a running run to the node; approval_required moves a running run to
-- waiting_approval; run_status_changed moves a pending or waiting_approval run to failed and a
-- running one to success or failed, if the payload has that text under status; and thirteen types
-- of notes change nothing in any status.
pub event_projection-Effect :
    (run : Run) (request : AppendRunEventRequest) (p : EventProjection)
    → (event_projection run request ≡ ok p)
      ↔ Effect (trim request.node_id) request.payload request.event_type run.status p
event_projection-Effect run request p =
    (accepted-Effect run request p, λ x. accepted_at run request x refl refl)
