-- ===== src/Store/Runs.antt =====
-- The run that a query finds after the statements that update runs.
use aleth_os_tool_passport.Prelude.{
  find-true, ==→≡, some, ℕ, ◌≡◌, refl, inl, inr, sym, ◌∙◌, Bool, true, Option, some, List, [], ◌∷◌,
  arith, ◌==◌, if◌then◌else◌, Text, ok, ap, >>=-eq-ok, ok_injective, find, find-true, Bool-cases,
}
use aleth_os_tool_passport.Platform.{Platform}
use aleth_os_tool_passport.Domain.Run.{Run, RunStatus, same_status, same_status_refl}
use aleth_os_tool_passport.Domain.RunEvent.{RunEvent}
use aleth_os_tool_passport.Store.{Db}
use aleth_os_tool_passport.Store.Events.{
  get_run, update_runs, at_status, advance, transition, next_sequence_and_prev_hash, linked,
  insert_event_row, insert_linked, insert_generated_event,
}
use aleth_os_tool_passport.Store.Chain.{insert_event_row-Inserted}

-- an update that keeps the IDs changes the run that is found, if it is one that is meant
update_runs-find :
    (test : Run → Bool) (change : Run → Run) (keeps_id : (r : Run) → (change r).run_id ≡ r.run_id)
    (id : ℕ) (rows : List Run) (r : Run)
    → find (λ x. x.run_id == id) rows ≡ some r
    → find (λ x. x.run_id == id) (update_runs test change rows)
      ≡ some (if test r then change r else r)
unfolding update_runs
update_runs-find test change keeps_id id [] r h = ground arith
update_runs-find test change keeps_id id (x ∷ rows) r h = elim (Bool-cases (x.run_id == id)) [
  | inl same ↦
      let e : x ≡ r = ground arith in
      elim (Bool-cases (test x)) [
        | inl yes_test ↦ let k = keeps_id x in ground arith
        | inr no_test ↦ ground arith
      ]
  | inr other ↦
      let rest = update_runs-find test change keeps_id id rows r (ground arith) in
      elim (Bool-cases (test x)) [
        | inl yes_test ↦ let k = keeps_id x in ground arith
        | inr no_test ↦ ground arith
      ]
]

-- a run that is found at the expected status is found with its changes
pub transition-get_run :
    (db db' : Db) (id : ℕ) (expected : RunStatus) (next : Option RunStatus) (place : Option Text)
    (now : ℕ) (r : Run)
    → transition db id expected next place now ≡ ok db'
    → get_run db id ≡ some r
    → same_status r.status expected ≡ true
    → get_run db' id ≡ some (advance next place now r)
unfolding transition get_run
transition-get_run db db' id expected next place now r h found same =
    let own : (r.run_id == id) ≡ true = find-true (λ x. x.run_id == id) db.runs found in
    let moved =
      update_runs-find (at_status id expected) (advance next place now) (λ x. refl) id db.runs r
        found in
    let runs : db'.runs ≡ update_runs (at_status id expected) (advance next place now) db.runs =
      ground arith in
    rw runs (moved ∙ ground arith)

-- a run that is found is found advanced, if that is all that happened to the runs
pub advance-get_run :
    (db db' : Db) (id : ℕ) (next : Option RunStatus) (place : Option Text) (now : ℕ) (r : Run)
    → db'.runs ≡ update_runs (at_status id r.status) (advance next place now) db.runs
    → get_run db id ≡ some r
    → get_run db' id ≡ some (advance next place now r)
unfolding get_run
advance-get_run db db' id next place now r runs found =
    let own : (r.run_id == id) ≡ true = find-true (λ x. x.run_id == id) db.runs found in
    let same = same_status_refl r.status in
    let moved =
      update_runs-find (at_status id r.status) (advance next place now) (λ x. refl) id db.runs r
        found in
    rw runs (moved ∙ ground arith)

insert_linked-runs :
    (p : Platform) (read : Bool) (db db' : Db) (event row : RunEvent)
    → insert_linked p read db event ≡ ok (row, db')
    → db'.runs ≡ db.runs
unfolding insert_linked
insert_linked-runs p read db db' event row h =
    let place = next_sequence_and_prev_hash read db.run_events event.run_id in
    let (mid, inserted, h₁) =
      >>=-eq-ok (insert_event_row db (linked p place.0 place.1 event)) _ h in
    sym (ap (λ t. t.1.runs) (ok_injective h₁))
    ∙ (insert_event_row-Inserted db mid (linked p place.0 place.1 event) inserted).runs

-- an event that is added changes no more than the time of the update
pub insert_generated_event-get_run :
    (p : Platform) (read : Bool) (db db' : Db) (event : RunEvent) (hash : Text) (id : ℕ) (r : Run)
    → insert_generated_event p read db event ≡ ok (hash, db')
    → get_run db id ≡ some r
    → (r' : Run) × (get_run db' id ≡ some r')
      × (r'.status ≡ r.status)
      × (r'.current_node ≡ r.current_node)
unfolding insert_generated_event get_run
insert_generated_event-get_run p read db db' event hash id r h found =
    let ((row, mid), inserted, h₁) = >>=-eq-ok (insert_linked p read db event) _ h in
    let same = insert_linked-runs p read db mid event row inserted in
    let stamp : Run → Run = λ x. record x { updated_at = event.created_at } in
    let out : db'.runs ≡ update_runs (λ x. x.run_id == event.run_id) stamp db.runs =
      sym (ap (λ t. t.1.runs) (ok_injective h₁))
      ∙ ap (update_runs (λ x. x.run_id == event.run_id) stamp) same in
    let moved =
      update_runs-find (λ x. x.run_id == event.run_id) stamp (λ x. refl) id db.runs r found in
    (if r.run_id == event.run_id then stamp r else r, rw out moved, ground arith, ground arith)

pub get_run-id : (db : Db) (id : ℕ) (r : Run) → get_run db id ≡ some r → r.run_id ≡ id
unfolding get_run
get_run-id db id r h = ==→≡ r.run_id id (find-true (λ x. x.run_id == id) db.runs {x = r} h)
