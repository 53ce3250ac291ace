-- ===== src/Tests/Attestations.antt =====
-- The attestation that was approved: sent, refused, and sent by two requests.
use aleth_os_tool_passport.Prelude.{
  ◌≤◌, ◌≡◌, ◌↔◌, refl, ◌⊎◌, true, some, [], ◌∷◌, codes, trim, ok, err, says,
}
use aleth_os_tool_passport.Domain.Run.{pending, running}
use aleth_os_tool_passport.Domain.RunEvent
use aleth_os_tool_passport.Domain.RunEvent.{
  RunEvent, run_created, node_started, provenance_frozen, approval_resolved,
}
use aleth_os_tool_passport.Domain.Approval
use aleth_os_tool_passport.Domain.Approval.{Approval, AttestationReceipt, AttestationCommitment}
use aleth_os_tool_passport.Errors.{
  is_unique_violation, attestation_submission, attestation_attempt_already_exists,
}
use aleth_os_tool_passport.Store.{Db, empty, insert, has_text}
use aleth_os_tool_passport.Store.Events
use aleth_os_tool_passport.Store.Events.{
  get_run, has_length, insert_event_row, insert_run, update_runs, rows_affected, transition, pick,
  latest, next_sequence_and_prev_hash, canonical_input, canonical_sha256, sha256_hex,
  compute_event_hash, linked, insert_linked, insert_generated_event, create_run,
}
use aleth_os_tool_passport.Store.Freezes.{
  insert_error, max_sequence, next_passport_sequence, insert_passport, insert_provenance,
  create_passport_freeze, get_passport_freeze,
}
use aleth_os_tool_passport.Store.Approvals
use aleth_os_tool_passport.Store.Approvals.{
  insert_approval, get_approval, insert_receipt, create_attestation_receipt,
  claim_attestation_attempt, get_attestation_receipt,
}
use aleth_os_tool_passport.Service.{World, parse_run_id, generated_event}
use aleth_os_tool_passport.Service.Requests.{
  digits_after_0x, is_hex, validate_required, validate_append_event, validate_passport_sequence,
  validate_hash, validate_chain, validate_approval_request,
}
use aleth_os_tool_passport.Service.Approve
use aleth_os_tool_passport.Service.Attest
use aleth_os_tool_passport.Service.Attest.{Ready, prepare}
use aleth_os_tool_passport.Service.Log
use aleth_os_tool_passport.Tests.Fixtures.{
  digits_only, run_at, event_of, event_request, run_id, attesting, succeeds, fails, world_of,
  or_else, hash_a,
}
use aleth_os_tool_passport.Domain.RunEvent.{attestation_submitted, attestation_confirmed}
use aleth_os_tool_passport.Lifecycle.{
  EventProjection, is_generated, event_projection, ensure_status,
}
use aleth_os_tool_passport.Lifecycle.Graph.{Effect, event_projection-Effect}
use aleth_os_tool_passport.Service.Log.{Accepted, append_event-Effect}
use aleth_os_tool_passport.Service.Attest.{
  running_run, attestation_approval, agrees, approved_provenance, commitment_of, claim_error, send,
  claim_and_send, submit_attestation,
}
use aleth_os_tool_passport.Service.Authority.{IsAuthorized, submit_attestation-IsAuthorized}
use aleth_os_tool_passport.Service.Retry.{submit_attestation-no_retry}
use aleth_os_tool_passport.Service.Steps.{Site, rest, more, here, claim, deliver}
use aleth_os_tool_passport.Service.Once.{submissions_of, submissions_bounds}
use aleth_os_tool_passport.Tests.Decisions.{approved, recorded}

abbrev commitment : AttestationCommitment
commitment = record {
  run_id = 65;
  tool_id = codes "url:example.com";
  tool_type = codes "generic";
  passport_hash = hash_a;
  audit_log_hash = hash_a;
  evidence_manifest_hash = hash_a;
  onchain_run_id = hash_a;
  chain_id = 11155111;
  registry_contract = codes "0xbbbbbbbbbbbbbbbbbbbbbbbbbbbbbbbbbbbbbbbb";
}

abbrev ready : Ready
ready = record { status = running; approval_id = 80; commitment = commitment }

ready-ok : prepare digits_only run_id approved.1.db ≡ ok ready
unfolding prepare running_run attestation_approval agrees approved_provenance commitment_of
    get_approval get_attestation_receipt Approve.create_approval Approve.waiting_run
    Approve.check_binding Approve.is_bound Approve.approval_of Approve.resolved_event
    Approve.approval_error Approve.next_status parse_run_id get_run validate_approval_request
    validate_passport_sequence validate_hash validate_chain is_hex digits_after_0x
    next_passport_sequence max_sequence get_passport_freeze generated_event Approval.as_str
    Approvals.create_approval insert_approval transition rows_affected create_passport_freeze
    create_run insert_run insert_passport insert_provenance insert_error is_unique_violation
    insert_generated_event update_runs insert_linked next_sequence_and_prev_hash latest pick
    insert_event_row insert has_text has_length linked compute_event_hash canonical_input
    canonical_sha256 sha256_hex RunEvent.as_str
ready-ok = refl

abbrev claimed : Db
claimed = or_else empty (claim_attestation_attempt approved.1.db 65 80 6)

claimed-ok : claim_attestation_attempt approved.1.db 65 80 6 ≡ ok claimed
unfolding claim_attestation_attempt Approve.create_approval Approve.waiting_run
    Approve.check_binding Approve.is_bound Approve.approval_of Approve.resolved_event
    Approve.approval_error Approve.next_status parse_run_id get_run validate_approval_request
    validate_passport_sequence validate_hash validate_chain is_hex digits_after_0x
    next_passport_sequence max_sequence get_passport_freeze generated_event Approval.as_str
    Approvals.create_approval insert_approval transition rows_affected create_passport_freeze
    create_run insert_run insert_passport insert_provenance insert_error is_unique_violation
    insert_generated_event update_runs insert_linked next_sequence_and_prev_hash latest pick
    insert_event_row insert has_text has_length linked compute_event_hash canonical_input
    canonical_sha256 sha256_hex RunEvent.as_str
claimed-ok = refl

submit_attestation-IsAuthorized_example :
    ((submit_attestation succeeds digits_only true (attesting 90) run_id approved.1).1.submitted
      ≡ approved.1.submitted)
    ⊎ ((c : AttestationCommitment) × ((submit_attestation succeeds digits_only true
            (attesting 90)
            run_id
            approved.1).1.submitted
          ≡ c ∷ approved.1.submitted)
        × IsAuthorized approved.1.db c)
submit_attestation-IsAuthorized_example =
    submit_attestation-IsAuthorized succeeds digits_only true (attesting 90) run_id approved.1

abbrev refused : World
refused = record approved.1 { db = claimed; submitted = commitment ∷ approved.1.submitted }

submit_attestation-no_retry_example :
    (submit_attestation fails digits_only true (attesting 90) run_id approved.1
      ≡ (err (attestation_submission (says "no connection")), refused))
    × (submit_attestation succeeds digits_only true (attesting 95) run_id refused
        ≡ (err attestation_attempt_already_exists, refused))
submit_attestation-no_retry_example =
    submit_attestation-no_retry fails succeeds digits_only true true (attesting 90) (attesting 95)
      run_id approved.1 ready claimed (says "no connection") ready-ok claimed-ok refl

abbrev two_requests : Site
two_requests = record {
  pending = [];
  world =
      (send succeeds digits_only true (attesting 90) ready
        (record (world_of approved.1.db) { db = claimed })).1;
}

no_attempts : approved.1.db.attestation_attempts ≡ []
unfolding Approve.create_approval Approve.waiting_run Approve.check_binding Approve.is_bound
    Approve.approval_of Approve.resolved_event Approve.approval_error Approve.next_status
    parse_run_id get_run validate_approval_request validate_passport_sequence validate_hash
    validate_chain is_hex digits_after_0x next_passport_sequence max_sequence get_passport_freeze
    generated_event Approval.as_str Approvals.create_approval insert_approval transition
    rows_affected create_passport_freeze create_run insert_run insert_passport insert_provenance
    insert_error is_unique_violation insert_generated_event update_runs insert_linked
    next_sequence_and_prev_hash latest pick insert_event_row insert has_text has_length linked
    compute_event_hash canonical_input canonical_sha256 sha256_hex RunEvent.as_str
no_attempts = refl

submissions_bounds_example : submissions_of 65 two_requests.world.submitted ≤ 1
submissions_bounds_example =
    submissions_bounds succeeds digits_only approved.1.db two_requests 65 no_attempts
      (more (more rest (claim ready 6 claimed-ok)) (deliver true (attesting 90) ready here))

abbrev receipt : AttestationReceipt
receipt = Attest.receipt_of (attesting 90) commitment hash_a

abbrev attested : AttestationReceipt × Db
attested =
    or_else (receipt, empty)
      (create_attestation_receipt digits_only true recorded.1 receipt
        (event_of 91 attestation_submitted) (event_of 92 attestation_confirmed) running)

attested-ok :
    create_attestation_receipt digits_only true recorded.1 receipt
      (event_of 91 attestation_submitted)
      (event_of 92 attestation_confirmed)
      running
    ≡ ok attested
unfolding create_attestation_receipt insert_receipt Attest.receipt_of Approve.create_approval
    Approve.waiting_run Approve.check_binding Approve.is_bound Approve.approval_of
    Approve.resolved_event Approve.approval_error Approve.next_status parse_run_id get_run
    validate_approval_request validate_passport_sequence validate_hash validate_chain is_hex
    digits_after_0x next_passport_sequence max_sequence get_passport_freeze generated_event
    Approval.as_str Approvals.create_approval insert_approval transition rows_affected
    create_passport_freeze create_run insert_run insert_passport insert_provenance insert_error
    is_unique_violation insert_generated_event update_runs insert_linked next_sequence_and_prev_hash
    latest pick insert_event_row insert has_text has_length linked compute_event_hash
    canonical_input canonical_sha256 sha256_hex RunEvent.as_str
attested-ok = refl

abbrev appended : RunEvent × World
appended =
    or_else (event_of 0 node_started, world_of empty)
      (Log.append_event digits_only true 93 10 run_id event_request approved.1)

appended-ok : Log.append_event digits_only true 93 10 run_id event_request approved.1 ≡ ok appended
unfolding Log.append_event Log.requested_event Log.append_error Events.append_event
    validate_append_event validate_required event_projection ensure_status is_generated
    Approve.create_approval Approve.waiting_run Approve.check_binding Approve.is_bound
    Approve.approval_of Approve.resolved_event Approve.approval_error Approve.next_status
    parse_run_id get_run validate_approval_request validate_passport_sequence validate_hash
    validate_chain is_hex digits_after_0x next_passport_sequence max_sequence get_passport_freeze
    generated_event Approval.as_str Approvals.create_approval insert_approval transition
    rows_affected create_passport_freeze create_run insert_run insert_passport insert_provenance
    insert_error is_unique_violation insert_generated_event update_runs insert_linked
    next_sequence_and_prev_hash latest pick insert_event_row insert has_text has_length linked
    compute_event_hash canonical_input canonical_sha256 sha256_hex RunEvent.as_str trim
appended-ok = refl

append_event-Effect_example : Accepted approved.1.db appended.1.db appended.0
append_event-Effect_example =
    append_event-Effect digits_only true 93 10 run_id event_request approved.1 appended.1 appended.0
      appended-ok

abbrev started : EventProjection
started = record { status = some running; current_node = some (codes "plan") }

event_projection-Effect_example :
    (event_projection (run_at pending) event_request ≡ ok started)
    ↔ Effect
        (trim event_request.node_id)
        event_request.payload
        event_request.event_type
        pending
        started
event_projection-Effect_example = event_projection-Effect (run_at pending) event_request started
