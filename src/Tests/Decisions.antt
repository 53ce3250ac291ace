-- ===== src/Tests/Decisions.antt =====
-- A Passport freeze, a human decision on it, and its attestation.
use aleth_os_tool_passport.Prelude.{reversed, ◌≡◌, refl, true, [], ok}
use aleth_os_tool_passport.Domain.Run.{running, waiting_approval}
use aleth_os_tool_passport.Domain.RunEvent
use aleth_os_tool_passport.Domain.RunEvent.{
  RunEvent, run_created, node_started, provenance_frozen, approval_resolved,
}
use aleth_os_tool_passport.Domain.Passport.{PassportFreezeResult}
use aleth_os_tool_passport.Domain.Approval
use aleth_os_tool_passport.Domain.Approval.{Approval, AttestationReceipt, AttestationCommitment}
use aleth_os_tool_passport.Errors.{is_unique_violation}
use aleth_os_tool_passport.Store.{Db, empty, insert, has_text}
use aleth_os_tool_passport.Store.Events.{
  get_run, has_length, insert_event_row, insert_run, update_runs, rows_affected, transition, pick,
  latest, next_sequence_and_prev_hash, canonical_input, canonical_sha256, sha256_hex,
  compute_event_hash, linked, insert_linked, insert_generated_event, create_run,
}
use aleth_os_tool_passport.Store.Chain.{events_of, last_hash}
use aleth_os_tool_passport.Store.Logged.{IsLogged, create_run-IsLogged}
use aleth_os_tool_passport.Store.Freezes.{
  insert_error, max_sequence, next_passport_sequence, insert_passport, insert_provenance,
  create_passport_freeze, get_passport_freeze,
}
use aleth_os_tool_passport.Store.Approvals
use aleth_os_tool_passport.Store.Approvals.{
  insert_approval, get_approval, insert_receipt, create_attestation_receipt,
  claim_attestation_attempt, get_attestation_receipt,
}
use aleth_os_tool_passport.Store.Decisions.{
  create_passport_freeze-audit_log_hash, create_approval-IsLogged,
}
use aleth_os_tool_passport.Service.{World, parse_run_id, generated_event}
use aleth_os_tool_passport.Service.Requests.{
  digits_after_0x, is_hex, validate_passport_sequence, validate_hash, validate_chain,
  validate_approval_request,
}
use aleth_os_tool_passport.Service.Approve
use aleth_os_tool_passport.Service.Outcome.{IsDecided, create_approval-IsDecided}
use aleth_os_tool_passport.Service.Bound.{IsBound, create_approval-IsBound}
use aleth_os_tool_passport.Store.Listings.{list_events, list_events-chain}
use aleth_os_tool_passport.Tests.Fixtures.{
  digits_only, run_at, event_of, passport, provenance, approval_request, run_id, deciding, left,
  world_of, or_else,
}

abbrev pub created : Db
created = left (create_run digits_only empty (run_at waiting_approval) (event_of 66 run_created))

created-ok :
    create_run digits_only empty (run_at waiting_approval) (event_of 66 run_created)
    ≡ ok (run_at waiting_approval, created)
unfolding create_run insert_run insert_event_row insert has_text has_length linked
    compute_event_hash canonical_input canonical_sha256 sha256_hex RunEvent.as_str
created-ok = refl

none-IsLogged : IsLogged digits_only []
unfolding events_of
none-IsLogged = λ id. tt

created-IsLogged : IsLogged digits_only created.run_events
created-IsLogged =
    create_run-IsLogged digits_only empty created (run_at waiting_approval)
      (event_of 66 run_created) created-ok none-IsLogged

abbrev pub frozen : PassportFreezeResult × Db
frozen =
    or_else (record { passport = passport; provenance = provenance }, empty)
      (create_passport_freeze digits_only true created passport provenance
        (event_of 67 provenance_frozen))

frozen-ok :
    create_passport_freeze digits_only true created passport provenance
      (event_of 67 provenance_frozen)
    ≡ ok frozen
unfolding create_passport_freeze create_run insert_run insert_passport insert_provenance
    insert_error is_unique_violation insert_generated_event update_runs insert_linked
    next_sequence_and_prev_hash latest pick insert_event_row insert has_text has_length linked
    compute_event_hash canonical_input canonical_sha256 sha256_hex RunEvent.as_str
frozen-ok = refl

create_passport_freeze-audit_log_hash_example :
    IsLogged digits_only frozen.1.run_events
    × (frozen.0.provenance.audit_log_hash ≡ last_hash (events_of 65 frozen.1.run_events))
create_passport_freeze-audit_log_hash_example =
    create_passport_freeze-audit_log_hash digits_only true created frozen.1 passport provenance
      (event_of 67 provenance_frozen) frozen-ok created-IsLogged refl

frozen-IsLogged : IsLogged digits_only frozen.1.run_events
frozen-IsLogged =
    (create_passport_freeze-audit_log_hash digits_only true created frozen.1 passport provenance
      (event_of 67 provenance_frozen) frozen-ok created-IsLogged refl).0

abbrev pub approved : Approval × World
approved =
    or_else (Approve.approval_of deciding 65 approval_request, world_of empty)
      (Approve.create_approval digits_only true deciding run_id approval_request
        (world_of frozen.1))

approved-ok :
    Approve.create_approval digits_only true deciding run_id approval_request (world_of frozen.1)
    ≡ ok approved
unfolding Approve.create_approval Approve.waiting_run Approve.check_binding Approve.is_bound
    Approve.approval_of Approve.resolved_event Approve.approval_error Approve.next_status
    parse_run_id get_run validate_approval_request validate_passport_sequence validate_hash
    validate_chain is_hex digits_after_0x next_passport_sequence max_sequence get_passport_freeze
    generated_event Approval.as_str Approvals.create_approval insert_approval transition
    rows_affected create_passport_freeze create_run insert_run insert_passport insert_provenance
    insert_error is_unique_violation insert_generated_event update_runs insert_linked
    next_sequence_and_prev_hash latest pick insert_event_row insert has_text has_length linked
    compute_event_hash canonical_input canonical_sha256 sha256_hex RunEvent.as_str
approved-ok = refl

create_approval-IsBound_example : IsBound (world_of frozen.1).db approved.0
create_approval-IsBound_example =
    create_approval-IsBound digits_only true deciding run_id approval_request (world_of frozen.1)
      approved.1 approved.0 approved-ok

create_approval-IsDecided_example : IsDecided approved.1.db approved.0
create_approval-IsDecided_example =
    create_approval-IsDecided digits_only true deciding run_id approval_request (world_of frozen.1)
      approved.1 approved.0 approved-ok

abbrev pub recorded : Approval × Db
recorded =
    or_else (approved.0, empty)
      (Approvals.create_approval digits_only true frozen.1 approved.0
        (event_of 68 approval_resolved) waiting_approval running)

recorded-ok :
    Approvals.create_approval digits_only true frozen.1 approved.0
      (event_of 68 approval_resolved)
      waiting_approval
      running
    ≡ ok recorded
unfolding Approve.create_approval Approve.waiting_run Approve.check_binding Approve.is_bound
    Approve.approval_of Approve.resolved_event Approve.approval_error Approve.next_status
    parse_run_id get_run validate_approval_request validate_passport_sequence validate_hash
    validate_chain is_hex digits_after_0x next_passport_sequence max_sequence get_passport_freeze
    generated_event Approval.as_str Approvals.create_approval insert_approval transition
    rows_affected create_passport_freeze create_run insert_run insert_passport insert_provenance
    insert_error is_unique_violation insert_generated_event update_runs insert_linked
    next_sequence_and_prev_hash latest pick insert_event_row insert has_text has_length linked
    compute_event_hash canonical_input canonical_sha256 sha256_hex RunEvent.as_str
recorded-ok = refl

pub recorded-IsLogged : IsLogged digits_only recorded.1.run_events
recorded-IsLogged =
    create_approval-IsLogged digits_only true frozen.1 recorded.1 approved.0
      (event_of 68 approval_resolved) waiting_approval running recorded-ok frozen-IsLogged

list_events-chain_example : list_events created 65 ≡ reversed (events_of 65 created.run_events)
list_events-chain_example = list_events-chain digits_only created 65 (created-IsLogged 65)
