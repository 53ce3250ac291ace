-- ===== src/Service/Approve.antt =====
-- `create_approval` of backend/src/services/mod.rs: a human decision on a frozen Passport.
use aleth_os_tool_passport.Prelude.{
  ℕ, ◌-◌, Bool, not, ◌&&◌, Option, none, some, ◌∷◌, ◌==◌, Text, codes, ◌=ₜ◌, Result, ok, ◌>>=◌,
  ◌>>◌, refuse, ok_or, map_err, says,
}
use aleth_os_tool_passport.Platform.{Platform}
use aleth_os_tool_passport.Domain.Run.{
  Run, RunStatus, running, success, failed, waiting_approval, same_status,
}
use aleth_os_tool_passport.Domain.RunEvent.{
  RunEvent, Value, null, num, str, end, field, approval_resolved,
}
use aleth_os_tool_passport.Domain.Passport.{PassportFreezeResult}
use aleth_os_tool_passport.Domain.Approval
use aleth_os_tool_passport.Domain.Approval.{
  ApprovalDecision, approve_offchain, approve_testnet_attestation, reject, CreateApprovalRequest,
  Approval,
}
use aleth_os_tool_passport.Errors.{
  RepositoryError, unique_violation, run_state_changed, ServiceError, run_not_found, conflict,
  passport_not_found, approval_already_exists, approval_not_found, repository,
}
use aleth_os_tool_passport.Store.{Db}
use aleth_os_tool_passport.Store.Events.{get_run}
use aleth_os_tool_passport.Store.Freezes.{next_passport_sequence, get_passport_freeze}
use aleth_os_tool_passport.Store.Approvals
use aleth_os_tool_passport.Service.{World, parse_run_id, ensure_run_exists, generated_event}
use aleth_os_tool_passport.Service.Requests.{validate_approval_request}

-- the results of `Utc::now` and `Uuid::new_v4` in the order of the calls
pub record Fresh : Type 0 where
  pub decided_at : ℕ
  pub approval_id : ℕ
  pub event_id : ℕ
  pub event_at : ℕ

unfoldable pub next_status : ApprovalDecision → RunStatus
next_status approve_offchain = success
next_status approve_testnet_attestation = running
next_status reject = failed

-- the run that a decision is made on
unfoldable pub waiting_run : Db → ℕ → Result ServiceError Run
waiting_run db run_id = do
  run ← ok_or run_not_found (get_run db run_id)
  refuse (not (same_status run.status waiting_approval))
      (conflict (says "run must be waiting_approval before a decision is recorded"))
  ok run

unfoldable pub is_bound : CreateApprovalRequest → PassportFreezeResult → Bool
is_bound request freeze =
    request.passport_sequence == freeze.passport.passport_sequence
    && request.passport_hash =ₜ freeze.provenance.passport_hash
    && request.audit_log_hash =ₜ freeze.provenance.audit_log_hash
    && request.evidence_manifest_hash =ₜ freeze.provenance.evidence_manifest_hash

-- The latest freeze, with which the request must agree. `◌-◌` stops at 0 as `saturating_sub`.
unfoldable pub check_binding : Db → ℕ → CreateApprovalRequest → Result ServiceError (Unit {0})
check_binding db run_id request = do
  freeze ←
      ok_or passport_not_found
        (get_passport_freeze db run_id (next_passport_sequence db run_id - 1))
  refuse (not (is_bound request freeze))
      (conflict (says "approval binding does not match the latest frozen provenance"))

unfoldable pub approval_of : Fresh → ℕ → CreateApprovalRequest → Approval
approval_of fresh run_id request = record {
  approval_schema_version = codes "0.1.0";
  approval_id = fresh.approval_id;
  run_id = run_id;
  decision = request.decision;
  passport_sequence = request.passport_sequence;
  passport_hash = request.passport_hash;
  audit_log_hash = request.audit_log_hash;
  evidence_manifest_hash = request.evidence_manifest_hash;
  chain_id = request.chain_id;
  registry_contract = request.registry_contract;
  decided_at = fresh.decided_at;
}

abbrev or_null {ℓ} : {A : Type ℓ} → (A → Value) → Option A → Value
or_null f none = null
or_null f (some a) = f a

unfoldable pub resolved_event : Platform → Fresh → Approval → RunEvent
resolved_event p fresh approval =
    generated_event fresh.event_id fresh.event_at approval.run_id approval_resolved (
      field (codes "approval_id") (str (p.uuid_text approval.approval_id)) (
        field (codes "decision") (str (Approval.as_str approval.decision)) (
          field (codes "passport_sequence") (num approval.passport_sequence) (
            field (codes "chain_id") (or_null num approval.chain_id)
              (field (codes "registry_contract") (or_null str approval.registry_contract) end)))))

unfoldable pub approval_error : RepositoryError → ServiceError
approval_error unique_violation = approval_already_exists
approval_error run_state_changed = conflict (says "run state changed while recording approval")
approval_error other = repository other

unfoldable pub create_approval :
    Platform
    → Bool
    → Fresh
    → Text
    → CreateApprovalRequest
    → World
    → Result ServiceError (Approval × World)
create_approval p read fresh run_id request w = do
  id ← parse_run_id p run_id
  run ← waiting_run w.db id
  validate_approval_request request
  check_binding w.db id request
  let approval = approval_of fresh id request
  let event = resolved_event p fresh approval
  (approval', db) ← map_err approval_error (
      Approvals.create_approval p read w.db approval event run.status
        (next_status request.decision))
  ok (approval', record w { db = db; broadcasts = event ∷ w.broadcasts })

unfoldable pub get_approval : Platform → Text → World → Result ServiceError Approval
get_approval p run_id w = do
  id ← parse_run_id p run_id
  ensure_run_exists w.db id
  ok_or approval_not_found (Approvals.get_approval w.db id)
