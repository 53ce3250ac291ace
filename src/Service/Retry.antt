-- ===== src/Service/Retry.antt =====
-- After a submission that failed, a request is refused until somebody looks at it.
use aleth_os_tool_passport.Prelude.{
  ℕ, ◌≡◌, refl, ◌∙◌, Bool, List, ◌∷◌, arith, Text, Result, ok, err, map_err, Message,
}
use aleth_os_tool_passport.Platform.{Platform}
use aleth_os_tool_passport.Domain.Approval.{AttestationCommitment}
use aleth_os_tool_passport.Errors.{
  attestation_attempt_already_exists, attestation_submission, is_unique_violation,
}
use aleth_os_tool_passport.Store.{Db, AttemptRow, insert}
use aleth_os_tool_passport.Store.Events.{get_run}
use aleth_os_tool_passport.Store.Freezes.{get_passport_freeze, insert_error}
use aleth_os_tool_passport.Store.Approvals.{
  get_approval, get_attestation_receipt, claim_attestation_attempt,
}
use aleth_os_tool_passport.Service.{World}
use aleth_os_tool_passport.Service.Attest
use aleth_os_tool_passport.Service.Attest.{
  Ready, running_run, attestation_approval, approved_provenance, agrees, commitment_of, prepare,
  claim_error, send, claim_and_send, submit_attestation,
}

-- The reads before the claim do not look at the attempts.
prepare-attempts :
    (p : Platform) (run_id : Text) (db : Db) (rows : List AttemptRow)
    → prepare p run_id (record db { attestation_attempts = rows }) ≡ prepare p run_id db
unfolding prepare running_run get_run get_attestation_receipt attestation_approval get_approval
    approved_provenance get_passport_freeze
prepare-attempts p run_id db rows = refl

claim-db :
    (db db' : Db) (run_id approval_id now : ℕ)
    → claim_attestation_attempt db run_id approval_id now ≡ ok db'
    → db' ≡ record db {
      attestation_attempts =
          record { run_id = run_id; approval_id = approval_id; claimed_at = now }
          ∷ db.attestation_attempts;
    }
unfolding claim_attestation_attempt insert
claim-db db db' run_id approval_id now h = ground arith

-- a second claim for a run
claim-again :
    (db db' : Db) (run_id approval_id now later : ℕ)
    → claim_attestation_attempt db run_id approval_id now ≡ ok db'
    → map_err claim_error (claim_attestation_attempt db' run_id approval_id later)
      ≡ err attestation_attempt_already_exists
unfolding claim_attestation_attempt insert claim_error insert_error is_unique_violation
claim-again db db' run_id approval_id now later h = ground arith

-- If the reads of submit_attestation succeed, the claim is recorded and the submitter fails, then
-- the call returns the failure and leaves the claim; and a call for the same run ID in the state
-- that it leaves, whatever the submitter would answer now, returns
-- attestation_attempt_already_exists and changes nothing.
pub submit_attestation-no_retry :
    (submit again : AttestationCommitment → Result Message Text) (p : Platform) (read read' : Bool)
    (fresh later : Attest.Fresh) (run_id : Text) (w : World) (ready : Ready) (db : Db)
    (message : Message)
    → prepare p run_id w.db ≡ ok ready
    → claim_attestation_attempt w.db ready.commitment.run_id ready.approval_id fresh.claimed_at
      ≡ ok db
    → submit ready.commitment ≡ err message
    → (let w' = record w { db = db; submitted = ready.commitment ∷ w.submitted } in
        (submit_attestation submit p read fresh run_id w
          ≡ (err (attestation_submission message), w'))
        × (submit_attestation again p read' later run_id w'
            ≡ (err attestation_attempt_already_exists, w')))
unfolding submit_attestation claim_and_send send
submit_attestation-no_retry submit again p read read' fresh later run_id w ready db message prepared
      claimed failed =
    let row : AttemptRow = record {
      run_id = ready.commitment.run_id;
      approval_id = ready.approval_id;
      claimed_at = fresh.claimed_at;
    } in
    let still : prepare p run_id db ≡ ok ready =
      rw (claim-db w.db db ready.commitment.run_id ready.approval_id fresh.claimed_at claimed)
        (prepare-attempts p run_id w.db (row ∷ w.db.attestation_attempts) ∙ prepared) in
    let refused =
      claim-again w.db db ready.commitment.run_id ready.approval_id fresh.claimed_at
        later.claimed_at claimed in
    (
      rw (submit_attestation, prepared, claim_and_send, claimed, send, failed) refl,
      rw (submit_attestation, still, claim_and_send) (ground arith),
    )
