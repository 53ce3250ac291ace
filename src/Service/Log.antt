-- ===== src/Service/Log.antt =====
-- `append_event` and the reads of a run in backend/src/services/mod.rs.
use aleth_os_tool_passport.Prelude.{
  ℕ, ◌≡◌, refl, subst, sym, ◌∙◌, Bool, Option, some, [], ◌∷◌, arith, Text, trim, Result, ok, ap,
  >>=-eq-ok, ok_or-ok, ok_injective, map_err-ok, ◌>>=◌, ◌>>◌, ok_or, map_err, says,
}
use aleth_os_tool_passport.Platform.{Platform}
use aleth_os_tool_passport.Domain.Run.{Run, RunStatus}
use aleth_os_tool_passport.Domain.RunEvent.{RunEvent, AppendRunEventRequest}
use aleth_os_tool_passport.Errors.{
  RepositoryError, run_state_changed, ServiceError, run_not_found, conflict, repository,
}
use aleth_os_tool_passport.Lifecycle.{EventProjection, event_projection}
use aleth_os_tool_passport.Lifecycle.Graph.{Effect, event_projection-Effect}
use aleth_os_tool_passport.Store.{Db}
use aleth_os_tool_passport.Store.Events
use aleth_os_tool_passport.Store.Events.{
  get_run, transition, update_runs, at_status, advance, insert_event_row, insert_linked, linked,
  next_sequence_and_prev_hash,
}
use aleth_os_tool_passport.Store.Runs.{advance-get_run}
use aleth_os_tool_passport.Store.Chain.{insert_event_row-Inserted}
use aleth_os_tool_passport.Service.{World, parse_run_id}
use aleth_os_tool_passport.Service.Requests.{validate_append_event}

unfoldable pub append_error : RepositoryError → ServiceError
append_error run_state_changed =
    conflict (says "run state changed while appending the event; reload and retry")
append_error other = repository other

-- the event before it has its place
unfoldable pub requested_event : ℕ → ℕ → ℕ → AppendRunEventRequest → RunEvent
requested_event event_id now run_id request = record {
  event_id = event_id;
  run_id = run_id;
  sequence = 0;
  node_id = trim request.node_id;
  event_type = request.event_type;
  payload = request.payload;
  created_at = now;
  event_hash = [];
  prev_event_hash = [];
}

unfoldable pub append_event :
    Platform
    → Bool
    → ℕ
    → ℕ
    → Text
    → AppendRunEventRequest
    → World
    → Result ServiceError (RunEvent × World)
append_event p read event_id now run_id request w = do
  id ← parse_run_id p run_id
  validate_append_event request
  run ← ok_or run_not_found (get_run w.db id)
  projection ← event_projection run request
  (event, db) ← map_err append_error (
      Events.append_event p read w.db (requested_event event_id now id request) run.status
        projection.status projection.current_node)
  ok (event, record w { db = db; broadcasts = event ∷ w.broadcasts })

-- what the repository's append does to the runs, and what it keeps of the event
record Appended (db db' : Db) (event e : RunEvent) (expected : RunStatus) (next : Option RunStatus)
    (place : Option Text) : Type 0 where
  pub runs :
      db'.runs
      ≡ update_runs (at_status event.run_id expected) (advance next place event.created_at) db.runs
  pub run_id : e.run_id ≡ event.run_id
  pub event_type : e.event_type ≡ event.event_type
  pub node_id : e.node_id ≡ event.node_id
  pub payload : e.payload ≡ event.payload

transition-runs :
    (db db' : Db) (id : ℕ) (expected : RunStatus) (next : Option RunStatus) (place : Option Text)
    (now : ℕ)
    → transition db id expected next place now ≡ ok db'
    → db'.runs ≡ update_runs (at_status id expected) (advance next place now) db.runs
unfolding transition
transition-runs db db' id expected next place now h = ground arith

linked-same :
    (p : Platform) (n : ℕ) (prev : Text) (event : RunEvent)
    → ((linked p n prev event).run_id ≡ event.run_id)
      × ((linked p n prev event).event_type ≡ event.event_type)
      × ((linked p n prev event).node_id ≡ event.node_id)
      × ((linked p n prev event).payload ≡ event.payload)
unfolding linked
linked-same p n prev event = (refl, refl, refl, refl)

append_event-Appended :
    (p : Platform) (read : Bool) (db db' : Db) (event e : RunEvent) (expected : RunStatus)
    (next : Option RunStatus) (place : Option Text)
    → Events.append_event p read db event expected next place ≡ ok (e, db')
    → Appended db db' event e expected next place
unfolding Events.append_event insert_linked
append_event-Appended p read db db' event e expected next place h =
    let (mid, moved, h₁) =
      >>=-eq-ok (transition db event.run_id expected next place event.created_at) _ h in
    let at = next_sequence_and_prev_hash read mid.run_events event.run_id in
    let (last, inserted, h₂) = >>=-eq-ok (insert_event_row mid (linked p at.0 at.1 event)) _ h₁ in
    let i = insert_event_row-Inserted mid last (linked p at.0 at.1 event) inserted in
    let out = ok_injective h₂ in
    let (ids, types, nodes, payloads) = linked-same p at.0 at.1 event in
    record {
      runs =
          sym (ap (λ t. t.1.runs) out)
          ∙ i.runs
          ∙ transition-runs db mid event.run_id expected next place event.created_at moved;
      run_id = sym (ap (λ t. t.0.run_id) out) ∙ ids;
      event_type = sym (ap (λ t. t.0.event_type) out) ∙ types;
      node_id = sym (ap (λ t. t.0.node_id) out) ∙ nodes;
      payload = sym (ap (λ t. t.0.payload) out) ∙ payloads;
    }

requested_event-same :
    (event_id now id : ℕ) (request : AppendRunEventRequest)
    → (id ≡ (requested_event event_id now id request).run_id)
      × (request.event_type ≡ (requested_event event_id now id request).event_type)
      × (trim request.node_id ≡ (requested_event event_id now id request).node_id)
      × (request.payload ≡ (requested_event event_id now id request).payload)
unfolding requested_event
requested_event-same event_id now id request = (refl, refl, refl, refl)

-- an event that was accepted on a run, and what it does to the runs
pub record Accepted (before after_it : Db) (e : RunEvent) : Type 0 where
  pub run : Run
  pub run_found : get_run before e.run_id ≡ some run
  pub change : EventProjection
  pub effect : Effect e.node_id e.payload e.event_type run.status change
  pub at : ℕ
  pub runs :
      after_it.runs
      ≡ update_runs
          (at_status e.run_id run.status)
          (advance change.status change.current_node at)
          before.runs
  pub run_after :
      get_run after_it e.run_id ≡ some (advance change.status change.current_node at run)

-- If append_event of the service returns an event, then the run that it names is found in the
-- database before, and the table of effects has a line for the type, the node and the payload of
-- the event and the status of this run: so none of the types that only the trust core writes is
-- accepted. The new list of runs is the old one with one update of the runs with that ID whose
-- status is the one that was found, which makes the change of that line; and the run is found with
-- this change afterwards.
pub append_event-Effect :
    (p : Platform) (read : Bool) (event_id now : ℕ) (run_id : Text)
    (request : AppendRunEventRequest) (w w' : World) (e : RunEvent)
    → append_event p read event_id now run_id request w ≡ ok (e, w')
    → Accepted w.db w'.db e
unfolding append_event
append_event-Effect p read event_id now run_id request w w' e h =
    let (id, parsed, h₁) = >>=-eq-ok (parse_run_id p run_id) _ h in
    let (_, valid, h₂) = >>=-eq-ok (validate_append_event request) _ h₁ in
    let (run, found, h₃) = >>=-eq-ok (ok_or _ (get_run w.db id)) _ h₂ in
    let (o, projected, h₄) = >>=-eq-ok (event_projection run request) _ h₃ in
    let event = requested_event event_id now id request in
    let ((e', db), made, h₅) =
      >>=-eq-ok
        (map_err append_error
          (Events.append_event p read w.db event run.status o.status o.current_node))
        _ h₄ in
    let out = ok_injective h₅ in
    let a =
      append_event-Appended p read w.db db event e' run.status o.status o.current_node
        (map_err-ok append_error _ made) in
    let (own, type, node, load) = requested_event-same event_id now id request in
    let same : e' ≡ e = ap (λ t. t.0) out in
    let ids : id ≡ e.run_id = own ∙ sym a.run_id ∙ ap (λ x. x.run_id) same in
    let types : request.event_type ≡ e.event_type =
      type ∙ sym a.event_type ∙ ap (λ x. x.event_type) same in
    let nodes : trim request.node_id ≡ e.node_id =
      node ∙ sym a.node_id ∙ ap (λ x. x.node_id) same in
    let payloads : request.payload ≡ e.payload = load ∙ sym a.payload ∙ ap (λ x. x.payload) same in
    let effect₀ = (event_projection-Effect run request o).0 projected in
    let effect₁ =
      subst (λ n. Effect n request.payload request.event_type run.status o) nodes effect₀ in
    let effect₂ =
      subst (λ v. Effect e.node_id v request.event_type run.status o) payloads effect₁ in
    let runs = sym (ap (λ t. t.1.db.runs) out) ∙ a.runs in
    let run_found = subst (λ i. get_run w.db i ≡ some run) ids (ok_or-ok _ _ found) in
    let all_runs =
      subst
        (λ i.
          w'.db.runs
          ≡ update_runs (at_status i run.status) (advance o.status o.current_node event.created_at)
              w.db.runs)
        (sym own ∙ ids) runs in
    record {
      run = run;
      run_found = run_found;
      change = o;
      effect = subst (λ t. Effect e.node_id e.payload t run.status o) types effect₂;
      at = event.created_at;
      runs = all_runs;
      run_after =
          advance-get_run w.db w'.db e.run_id o.status o.current_node event.created_at run all_runs
            run_found;
    }
