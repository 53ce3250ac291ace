-- ===== src/Tests/Chains.antt =====
-- The log of one run.
use aleth_os_tool_passport.Prelude.{suc, ◌≡◌, refl, true, none, some, [], Text, ok, length}
use aleth_os_tool_passport.Domain.Run.{pending, running}
use aleth_os_tool_passport.Domain.RunEvent.{RunEvent, run_created, node_started, node_finished}
use aleth_os_tool_passport.Domain.RunEvent
use aleth_os_tool_passport.Store.{Db, empty, insert, has_text}
use aleth_os_tool_passport.Store.Events.{
  has_length, insert_event_row, insert_run, update_runs, pick, latest, next_sequence_and_prev_hash,
  canonical_input, canonical_sha256, sha256_hex, compute_event_hash, linked, insert_linked,
  insert_generated_event, create_run, append_event,
}
use aleth_os_tool_passport.Store.Chain.{events_of, last_hash, IsChain, place-of_chain}
use aleth_os_tool_passport.Store.Logged.{
  IsLogged, create_run-IsLogged, insert_generated_event-IsLogged,
}
use aleth_os_tool_passport.Tests.Fixtures.{plain, run_at, event_of, left, or_else}

abbrev created : Db
created = left (create_run plain empty (run_at pending) (event_of 66 run_created))

created-ok :
    create_run plain empty (run_at pending) (event_of 66 run_created) ≡ ok (run_at pending, created)
unfolding create_run insert_run insert_event_row insert has_text has_length linked
    compute_event_hash canonical_input canonical_sha256 sha256_hex RunEvent.as_str
created-ok = refl

none-IsLogged : IsLogged plain []
unfolding events_of
none-IsLogged = λ id. tt

created-IsLogged : IsLogged plain created.run_events
created-IsLogged =
    create_run-IsLogged plain empty created (run_at pending) (event_of 66 run_created) created-ok
      none-IsLogged

abbrev started : RunEvent × Db
started =
    or_else (event_of 0 node_started, empty)
      (append_event plain true created (event_of 67 node_started) pending (some running) none)

abbrev noted : Text × Db
noted = or_else ([], empty) (insert_generated_event plain true created (event_of 68 node_finished))

noted-ok : insert_generated_event plain true created (event_of 68 node_finished) ≡ ok noted
unfolding insert_generated_event create_run update_runs insert_linked next_sequence_and_prev_hash
    latest pick insert_run insert_event_row insert has_text has_length linked compute_event_hash
    canonical_input canonical_sha256 sha256_hex RunEvent.as_str
noted-ok = refl

insert_generated_event-IsLogged_example : IsChain plain (events_of 65 noted.1.run_events)
insert_generated_event-IsLogged_example =
    insert_generated_event-IsLogged plain true created noted.1 (event_of 68 node_finished) noted-ok
      created-IsLogged 65

place-of_chain_example :
    next_sequence_and_prev_hash true created.run_events 65
    ≡ (suc (length (events_of 65 created.run_events)), last_hash (events_of 65 created.run_events))
place-of_chain_example = place-of_chain plain 65 created.run_events (created-IsLogged 65)
