-- ===== src/Store/Events.antt =====
-- The event log of backend/src/repository/mod.rs: hashes, sequence numbers, and the statements that
-- write runs and events. A function on the database returns the new tables, or an error after which
-- the transaction is rolled back.
use aleth_os_tool_passport.Prelude.{
  ℕ, ◌+◌, Bool, true, false, not, ◌&&◌, ◌||◌, Option, none, some, List, [], ◌∷◌, ◌++◌, map, ltb,
  ◌==◌, if◌then◌else◌, Text, codes, Result, ok, err, ◌>>=◌, map_err, any, find, keep, length,
}
use aleth_os_tool_passport.Platform.{Platform}
use aleth_os_tool_passport.Domain.Run.{Run, RunStatus, same_status}
use aleth_os_tool_passport.Domain.RunEvent
use aleth_os_tool_passport.Domain.RunEvent.{
  RunEvent, Value, str, num, obj, Fields, end, field, zero_hash,
}
use aleth_os_tool_passport.Errors.{RepositoryError, database, run_state_changed}
use aleth_os_tool_passport.Store.{Db, insert, has_text}

-- the event of a run with the highest sequence number, as `MAX(sequence)` and
-- `ORDER BY sequence DESC LIMIT 1` read it
unfoldable pub pick : RunEvent → Option RunEvent → Option RunEvent
pick e none = some e
pick e (some f) = if ltb f.sequence e.sequence then some e else some f

unfoldable pub latest : ℕ → List RunEvent → Option RunEvent
unfolding pick
latest run_id [] = none
latest run_id (e ∷ rows) =
    let rest = latest run_id rows in if e.run_id == run_id then pick e rest else rest

abbrev pub next_place : Option RunEvent → ℕ × Text
next_place none = (1, zero_hash)
next_place (some e) = (e.sequence + 1, e.event_hash)

-- `read` says whether the query succeeds: `.ok().flatten()` takes a fault for no row.
unfoldable pub next_sequence_and_prev_hash : Bool → List RunEvent → ℕ → ℕ × Text
unfolding latest
next_sequence_and_prev_hash false rows run_id = (1, zero_hash)
next_sequence_and_prev_hash true rows run_id = next_place (latest run_id rows)

-- `length(x) > 0` of SQLite
unfoldable pub has_length : Text → Bool
has_length [] = false
has_length (c ∷ s) = not (c == 0)

-- INSERT INTO run_events
unfoldable pub insert_event_row : Db → RunEvent → Result RepositoryError Db
insert_event_row db row = do
  rows ← map_err database (
      insert
        (ltb 0 row.sequence
          && has_text row.node_id
          && has_length row.event_hash
          && has_length row.prev_event_hash)
        (λ e. e.event_id == row.event_id || (e.run_id == row.run_id && e.sequence == row.sequence))
        (any (λ r. r.run_id == row.run_id) db.runs) row db.run_events)
  ok (record db { run_events = rows })

-- UPDATE runs SET … WHERE …, and `rows_affected`
unfoldable pub update_runs : (Run → Bool) → (Run → Run) → List Run → List Run
update_runs test change rows = map (λ r. if test r then change r else r) rows

unfoldable pub rows_affected : (Run → Bool) → List Run → ℕ
rows_affected test rows = length (keep test rows)

unfoldable pub get_run : Db → ℕ → Option Run
get_run db run_id = find (λ r. r.run_id == run_id) db.runs

-- INSERT INTO runs
unfoldable pub insert_run : Db → Run → Result RepositoryError Db
insert_run db run = do
  runs ← map_err database (
      insert (has_text run.goal && has_text run.tool.name && has_text run.tool.tool_type)
        (λ r. r.run_id == run.run_id) true run db.runs)
  ok (record db { runs = runs })

-- `WHERE run_id = ? AND status = ?`
abbrev pub at_status : ℕ → RunStatus → Run → Bool
at_status run_id expected_status r = r.run_id == run_id && same_status r.status expected_status

-- `SET status = COALESCE(?, status), current_node = COALESCE(?, current_node), updated_at = ?`
abbrev pub advance : Option RunStatus → Option Text → ℕ → Run → Run
advance next_status current_node now r = record r {
  status = elim next_status [ none ↦ r.status | some s ↦ s ];
  current_node = elim current_node [ none ↦ r.current_node | some n ↦ some n ];
  updated_at = now;
}

-- The UPDATE of a run that was read at `expected_status`, refused if it is there no more.
unfoldable pub transition :
    Db → ℕ → RunStatus → Option RunStatus → Option Text → ℕ → Result RepositoryError Db
transition db run_id expected_status next_status current_node now =
    if rows_affected (at_status run_id expected_status) db.runs == 1
    then ok (record db {
      runs =
          update_runs (at_status run_id expected_status) (advance next_status current_node now)
            db.runs;
    })
    else err run_state_changed

module _ (p : Platform) where
  unfoldable pub sha256_hex : Text → Text
  sha256_hex bytes = codes "0x" ++ p.hex_encode (p.sha256 bytes)

  unfoldable pub canonical_sha256 : Value → Text
  unfolding sha256_hex
  canonical_sha256 value = sha256_hex (p.canonicalize value)

  -- the JSON object of `compute_event_hash`
  unfoldable pub canonical_input : RunEvent → Value
  canonical_input e = obj (
      field (codes "run_id") (str (p.uuid_text e.run_id)) (
        field (codes "sequence") (num e.sequence) (
          field (codes "node_id") (str e.node_id) (
            field (codes "event_type") (str (RunEvent.as_str e.event_type)) (
              field (codes "payload") (obj e.payload) (
                field (codes "created_at") (str (p.format_timestamp e.created_at))
                  (field (codes "prev_event_hash") (str e.prev_event_hash) end)))))))

  unfoldable pub compute_event_hash : RunEvent → Text
  unfolding canonical_sha256 canonical_input
  compute_event_hash e = canonical_sha256 (canonical_input e)

  -- an event with its place in the chain of its run
  unfoldable pub linked : ℕ → Text → RunEvent → RunEvent
  linked sequence prev_hash event =
      let e = record event { sequence = sequence; prev_event_hash = prev_hash } in
      record e { event_hash = compute_event_hash e }

  -- the place in the chain, the hash, and the INSERT, as all writers of events make them
  unfoldable pub insert_linked : Bool → Db → RunEvent → Result RepositoryError (RunEvent × Db)
  insert_linked read db event = do
    let place = next_sequence_and_prev_hash read db.run_events event.run_id
    db' ← insert_event_row db (linked place.0 place.1 event)
    ok (linked place.0 place.1 event, db')

  -- the hash that it returns is that of the new row
  unfoldable pub insert_generated_event : Bool → Db → RunEvent → Result RepositoryError (Text × Db)
  insert_generated_event read db event = do
    (row, db') ← insert_linked read db event
    ok (
      row.event_hash,
      record db' {
        runs =
            update_runs (λ r. r.run_id == event.run_id)
              (λ r. record r { updated_at = event.created_at }) db'.runs;
      },
    )

  -- INSERT INTO runs, and the first event with sequence 1
  unfoldable pub create_run : Db → Run → RunEvent → Result RepositoryError (Run × Db)
  create_run db run created_event = do
    db' ← insert_run db run
    db'' ← insert_event_row db' (linked 1 zero_hash (record created_event { run_id = run.run_id }))
    ok (run, db'')

  unfoldable pub append_event :
      Bool
      → Db
      → RunEvent
      → RunStatus
      → Option RunStatus
      → Option Text
      → Result RepositoryError (RunEvent × Db)
  append_event read db event expected_status next_status current_node = do
    db' ← transition db event.run_id expected_status next_status current_node event.created_at
    insert_linked read db' event
