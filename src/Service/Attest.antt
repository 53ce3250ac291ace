-- ===== src/Service/Attest.antt =====
-- `submit_attestation` of backend/src/services/mod.rs. The submitter is the trait
-- AttestationSubmitter; a fault in the middle leaves what was committed before it.
use aleth_os_tool_passport.Prelude.{
  ℕ, Bool, true, false, not, ◌&&◌, some, ◌∷◌, Text, codes, ◌=ₜ◌, Result, ok, err, ◌>>=◌, ◌>>◌,
  refuse, ok_or, map_err, Message, says, is_some,
}
use aleth_os_tool_passport.Platform.{Platform}
use aleth_os_tool_passport.Domain.Run.{Run, RunStatus, running, same_status}
use aleth_os_tool_passport.Domain.RunEvent.{
  RunEvent, num, str, end, field, attestation_submitted, attestation_confirmed,
}
use aleth_os_tool_passport.Domain.Passport.{Provenance}
use aleth_os_tool_passport.Domain.Approval.{
  ApprovalDecision, approve_testnet_attestation, Approval, AttestationReceipt,
  AttestationCommitment, confirmed,
}
use aleth_os_tool_passport.Errors.{
  RepositoryError, unique_violation, run_state_changed, ServiceError, run_not_found, conflict,
  passport_not_found, approval_not_found, attestation_already_exists,
  attestation_attempt_already_exists, attestation_not_found, attestation_submission, repository,
}
use aleth_os_tool_passport.Store.{Db}
use aleth_os_tool_passport.Store.Events.{get_run}
use aleth_os_tool_passport.Store.Freezes.{get_passport_freeze}
use aleth_os_tool_passport.Store.Approvals.{
  get_approval, get_attestation_receipt, claim_attestation_attempt, create_attestation_receipt,
}
use aleth_os_tool_passport.Service.{World, parse_run_id, ensure_run_exists, generated_event}

pub record Fresh : Type 0 where
  pub claimed_at : ℕ
  pub submitted_at : ℕ
  pub attestation_id : ℕ
  pub confirmed_at : ℕ
  pub submitted_event_id : ℕ
  pub confirmed_event_id : ℕ
  pub confirmed_event_at : ℕ

abbrev pub is_attestation : ApprovalDecision → Bool
is_attestation approve_testnet_attestation = true
is_attestation _ = false

unfoldable pub running_run : Db → ℕ → Result ServiceError Run
running_run db run_id = do
  run ← ok_or run_not_found (get_run db run_id)
  refuse (not (same_status run.status running))
      (conflict (says "run must be running after a testnet attestation approval"))
  ok run

unfoldable pub attestation_approval : Db → ℕ → Result ServiceError Approval
attestation_approval db run_id = do
  approval ← ok_or approval_not_found (get_approval db run_id)
  refuse (not (is_attestation approval.decision))
      (conflict (says "run does not have a testnet attestation approval"))
  ok approval

unfoldable pub agrees : Approval → Provenance → Bool
agrees approval provenance =
    approval.passport_hash =ₜ provenance.passport_hash
    && approval.audit_log_hash =ₜ provenance.audit_log_hash
    && approval.evidence_manifest_hash =ₜ provenance.evidence_manifest_hash

unfoldable pub approved_provenance : Db → ℕ → Approval → Result ServiceError Provenance
approved_provenance db run_id approval = do
  freeze ← ok_or passport_not_found (get_passport_freeze db run_id approval.passport_sequence)
  refuse (not (agrees approval freeze.provenance))
      (conflict (says "attestation approval no longer matches frozen provenance"))
  ok freeze.provenance

unfoldable pub commitment_of : ℕ → Run → Provenance → ℕ → Text → AttestationCommitment
commitment_of run_id run provenance chain_id registry_contract = record {
  run_id = run_id;
  tool_id = run.tool_id;
  tool_type = run.tool.tool_type;
  passport_hash = provenance.passport_hash;
  audit_log_hash = provenance.audit_log_hash;
  evidence_manifest_hash = provenance.evidence_manifest_hash;
  onchain_run_id = provenance.onchain_run_id;
  chain_id = chain_id;
  registry_contract = registry_contract;
}

-- what the reads before the claim find
pub record Ready : Type 0 where
  pub status : RunStatus
  pub approval_id : ℕ
  pub commitment : AttestationCommitment

unfoldable pub prepare : Platform → Text → Db → Result ServiceError Ready
prepare p run_id db = do
  id ← parse_run_id p run_id
  run ← running_run db id
  refuse (is_some (get_attestation_receipt db id)) attestation_already_exists
  approval ← attestation_approval db id
  provenance ← approved_provenance db id approval
  chain_id ← ok_or (conflict (says "attestation approval has no chain ID")) approval.chain_id
  registry_contract ←
      ok_or (conflict (says "attestation approval has no registry contract"))
        approval.registry_contract
  ok (record {
    status = run.status;
    approval_id = approval.approval_id;
    commitment = commitment_of id run provenance chain_id registry_contract;
  })

unfoldable pub receipt_of : Fresh → AttestationCommitment → Text → AttestationReceipt
receipt_of fresh c transaction_hash = record {
  attestation_receipt_schema_version = codes "0.1.0";
  attestation_id = fresh.attestation_id;
  run_id = c.run_id;
  tool_id = c.tool_id;
  passport_hash = c.passport_hash;
  audit_log_hash = c.audit_log_hash;
  evidence_manifest_hash = c.evidence_manifest_hash;
  onchain_run_id = c.onchain_run_id;
  chain_id = c.chain_id;
  registry_contract = c.registry_contract;
  status = confirmed;
  transaction_hash = some transaction_hash;
  submitted_at = fresh.submitted_at;
  confirmed_at = some fresh.confirmed_at;
}

unfoldable pub submitted_event : Platform → Fresh → AttestationCommitment → Text → RunEvent
submitted_event p fresh c transaction_hash =
    generated_event fresh.submitted_event_id fresh.submitted_at c.run_id attestation_submitted (
      field (codes "attestation_id") (str (p.uuid_text fresh.attestation_id)) (
        field (codes "chain_id") (num c.chain_id) (
          field (codes "registry_contract") (str c.registry_contract)
            (field (codes "transaction_hash") (str transaction_hash) end))))

unfoldable pub confirmed_event : Platform → Fresh → AttestationCommitment → Text → RunEvent
confirmed_event p fresh c transaction_hash =
    generated_event fresh.confirmed_event_id fresh.confirmed_event_at c.run_id attestation_confirmed
      (field (codes "attestation_id") (str (p.uuid_text fresh.attestation_id)) (
        field (codes "chain_id") (num c.chain_id)
          (field (codes "transaction_hash") (str transaction_hash) end)))

unfoldable pub claim_error : RepositoryError → ServiceError
claim_error unique_violation = attestation_attempt_already_exists
claim_error other = repository other

unfoldable pub receipt_error : RepositoryError → ServiceError
receipt_error unique_violation = attestation_already_exists
receipt_error run_state_changed =
    conflict (says "run state changed while recording attestation receipt")
receipt_error other = repository other

-- the transaction after a submission that the chain confirmed
unfoldable pub record_receipt :
    Platform
    → Bool
    → Fresh
    → Ready
    → Text
    → World
    → Result ServiceError (AttestationReceipt × World)
record_receipt p read fresh ready transaction_hash w = do
  let first = submitted_event p fresh ready.commitment transaction_hash
  let second = confirmed_event p fresh ready.commitment transaction_hash
  (receipt, db) ← map_err receipt_error (
      create_attestation_receipt p read w.db (receipt_of fresh ready.commitment transaction_hash)
        first second ready.status)
  ok (receipt, record w { db = db; broadcasts = second ∷ first ∷ w.broadcasts })

-- `Err` with what was changed before it, or the result
abbrev settle {ℓ} :
    {A : Type ℓ} → World → Result ServiceError (A × World) → Result ServiceError A × World
settle w (err e) = (err e, w)
settle w (ok (a, w')) = (ok a, w')

module _ (submit : AttestationCommitment → Result Message Text) (p : Platform) (read : Bool)
    (fresh : Fresh) where
  -- The call of the submitter, and what follows. Two requests can both be here with the same `Ready`.
  unfoldable pub send : Ready → World → Result ServiceError AttestationReceipt × World
  send ready w =
      let sent = record w { submitted = ready.commitment ∷ w.submitted } in
      elim (submit ready.commitment) [
        | err message ↦ (err (attestation_submission message), sent)
        | ok transaction_hash ↦
            settle sent (record_receipt p read fresh ready transaction_hash sent)
      ]

  unfoldable pub claim_and_send : Ready → World → Result ServiceError AttestationReceipt × World
  claim_and_send ready w =
      elim (claim_attestation_attempt w.db ready.commitment.run_id ready.approval_id
        fresh.claimed_at) [
          | err e ↦ (err (claim_error e), w)
          | ok db ↦ send ready (record w { db = db })
        ]

  unfoldable pub submit_attestation : Text → World → Result ServiceError AttestationReceipt × World
  submit_attestation run_id w = elim (prepare p run_id w.db) [
    | err e ↦ (err e, w)
    | ok ready ↦ claim_and_send ready w
  ]

unfoldable pub get_attestation : Platform → Text → World → Result ServiceError AttestationReceipt
get_attestation p run_id w = do
  id ← parse_run_id p run_id
  ensure_run_exists w.db id
  ok_or attestation_not_found (get_attestation_receipt w.db id)
