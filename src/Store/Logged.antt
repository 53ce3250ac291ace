-- ===== src/Store/Logged.antt =====
-- Every write of an event, with its queries failing or not, keeps the chains of all runs.
use aleth_os_tool_passport.Prelude.{
  ℕ, suc, ◌≡◌, refl, inl, inr, Bool, true, false, ◌&&◌, ◌||◌, Option, List, [], ◌∷◌, arith, ◌==◌,
  Text, ok, ap, ==→≡, >>=-eq-ok, any, length, Bool-cases,
}
use aleth_os_tool_passport.Platform.{Platform}
use aleth_os_tool_passport.Domain.Run.{Run, RunStatus}
use aleth_os_tool_passport.Domain.RunEvent.{RunEvent, zero_hash}
use aleth_os_tool_passport.Store.{Db, insert}
use aleth_os_tool_passport.Store.Events.{
  canonical_input, compute_event_hash, linked, next_sequence_and_prev_hash, insert_event_row,
  insert_linked, insert_run, transition, insert_generated_event, create_run, append_event,
}
use aleth_os_tool_passport.Store.Chain.{
  events_of, last_hash, IsChain, place-of_chain, first-in-chain, is_first, Inserted,
  insert_event_row-Inserted,
}

fresh-first :
    (id key : ℕ) (rows : List RunEvent)
    → any (λ e. e.event_id == key || (e.run_id == id && e.sequence == 1)) rows ≡ false
    → any (is_first id) rows ≡ false
fresh-first id key [] h = refl
fresh-first id key (e ∷ rows) h = ground (arith, fresh-first id key rows)

pub transition-events :
    (db db' : Db) (id : ℕ) (expected : RunStatus) (next : Option RunStatus) (place : Option Text)
    (now : ℕ)
    → transition db id expected next place now ≡ ok db'
    → db'.run_events ≡ db.run_events
unfolding transition
transition-events db db' id expected next place now h = ground arith

insert_run-events :
    (db db' : Db) (run : Run) → insert_run db run ≡ ok db' → db'.run_events ≡ db.run_events
unfolding insert_run insert
insert_run-events db db' run h = ground arith

module _ (p : Platform) where
  -- The events of every run form a chain.
  abbrev pub IsLogged : List RunEvent → Type 0
  IsLogged rows = (id : ℕ) → IsChain p (events_of id rows)

  abbrev next_of : ℕ → List RunEvent → ℕ × Text
  next_of id rows = (suc (length (events_of id rows)), last_hash (events_of id rows))

  -- An event whose place is 1 is accepted only as the first one.
  first-next_of :
      (db db' : Db) (event : RunEvent)
      → IsLogged db.run_events
      → Inserted db db' (linked p 1 zero_hash event)
      → (1, zero_hash) ≡ next_of event.run_id db.run_events
  unfolding linked
  first-next_of db db' event c i =
      let none_yet =
        first-in-chain p event.run_id db.run_events (c event.run_id)
          (fresh-first event.run_id event.event_id db.run_events i.fresh) in
      rw none_yet

  place-next_of :
      (read : Bool) (db db' : Db) (event : RunEvent)
      → IsLogged db.run_events
      → (let place = next_sequence_and_prev_hash read db.run_events event.run_id in
          Inserted db db' (linked p place.0 place.1 event)
          → place ≡ next_of event.run_id db.run_events)
  unfolding next_sequence_and_prev_hash
  place-next_of true db db' event c i = place-of_chain p event.run_id db.run_events (c event.run_id)
  place-next_of false db db' event c i = first-next_of db db' event c i

  IsChain-linked :
      (id : ℕ) (event : RunEvent) (rows : List RunEvent) (place : ℕ × Text)
      → IsLogged rows
      → place ≡ next_of event.run_id rows
      → IsChain p (events_of id (linked p place.0 place.1 event ∷ rows))
  unfolding events_of linked canonical_input compute_event_hash
  IsChain-linked id event rows place c e = elim (Bool-cases (event.run_id == id)) [
    | inl same ↦
        let here : place ≡ next_of id rows = rw (==→≡ event.run_id id same) at e in
        rw same (ap (λ t. t.0) here, ap (λ t. t.1) here, refl, c id)
    | inr other ↦ rw other (c id)
  ]

  -- Whatever the query for its place says, an event that is inserted extends its chain.
  pub insert_linked-IsLogged :
      (read : Bool) (db db' : Db) (event : RunEvent) {row : RunEvent}
      → insert_linked p read db event ≡ ok (row, db')
      → IsLogged db.run_events
      → IsLogged db'.run_events
  unfolding insert_linked
  insert_linked-IsLogged read db db' event h c =
      let place = next_sequence_and_prev_hash read db.run_events event.run_id in
      let (mid, inserted, rest) =
        >>=-eq-ok (insert_event_row db (linked p place.0 place.1 event)) _ h in
      let i = insert_event_row-Inserted db mid (linked p place.0 place.1 event) inserted in
      let same : db'.run_events ≡ mid.run_events = cc in
      rw (same, i.appended)
        λ id. IsChain-linked id event db.run_events place c (place-next_of read db mid event c i)

  -- If the events of every run form a hash chain, and insert_generated_event succeeds, then they
  -- do so after it, also when its query for the place of the event failed.
  pub insert_generated_event-IsLogged :
      (read : Bool) (db db' : Db) (event : RunEvent) {hash : Text}
      → insert_generated_event p read db event ≡ ok (hash, db')
      → IsLogged db.run_events
      → IsLogged db'.run_events
  unfolding insert_generated_event
  insert_generated_event-IsLogged read db db' event h c =
      let ((row, mid), inserted, rest) = >>=-eq-ok (insert_linked p read db event) _ h in
      let same : db'.run_events ≡ mid.run_events = cc in
      rw same (insert_linked-IsLogged read db mid event inserted c)

  -- If the events of every run form a hash chain, and append_event of the repository succeeds,
  -- then they do so after it, also when its query for the place of the event failed.
  pub append_event-IsLogged :
      (read : Bool) (db db' : Db) (event : RunEvent) (expected : RunStatus)
      (next : Option RunStatus) (place : Option Text) {e : RunEvent}
      → append_event p read db event expected next place ≡ ok (e, db')
      → IsLogged db.run_events
      → IsLogged db'.run_events
  unfolding append_event
  append_event-IsLogged read db db' event expected next place h c =
      let (mid, moved, inserted) =
        >>=-eq-ok (transition db event.run_id expected next place event.created_at) _ h in
      insert_linked-IsLogged read mid db' event inserted
        (rw (transition-events db mid event.run_id expected next place event.created_at moved) c)

  -- If the events of every run form a hash chain, and create_run of the repository succeeds, then
  -- they do so after it.
  pub create_run-IsLogged :
      (db db' : Db) (run : Run) (event : RunEvent) {r : Run}
      → create_run p db run event ≡ ok (r, db')
      → IsLogged db.run_events
      → IsLogged db'.run_events
  unfolding create_run
  create_run-IsLogged db db' run event h c =
      let first = record event { run_id = run.run_id } in
      let (mid, added, h₁) = >>=-eq-ok (insert_run db run) _ h in
      let (end, inserted, rest) =
        >>=-eq-ok (insert_event_row mid (linked p 1 zero_hash first)) _ h₁ in
      let same : db'.run_events ≡ end.run_events = cc in
      let i = insert_event_row-Inserted mid end (linked p 1 zero_hash first) inserted in
      let c' : IsLogged mid.run_events = rw (insert_run-events db mid run added) c in
      rw (same, i.appended)
        λ id.
          IsChain-linked id first mid.run_events (1, zero_hash) c'
            (first-next_of mid end first c' i)
