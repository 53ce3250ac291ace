-- ===== src/Store/Approvals.antt =====
-- Human decisions and attestations in backend/src/repository/mod.rs.
use aleth_os_tool_passport.Prelude.{
  ℕ, Bool, true, ◌&&◌, ◌||◌, Option, none, some, ◌==◌, codes, Result, ok, ◌>>=◌, map_err, any, find,
}
use aleth_os_tool_passport.Platform.{Platform}
use aleth_os_tool_passport.Domain.Run.{RunStatus, success}
use aleth_os_tool_passport.Domain.RunEvent.{RunEvent}
use aleth_os_tool_passport.Domain.Approval.{Approval, AttestationReceipt}
use aleth_os_tool_passport.Errors.{RepositoryError}
use aleth_os_tool_passport.Store.{Db, insert}
use aleth_os_tool_passport.Store.Events.{transition, insert_generated_event}
use aleth_os_tool_passport.Store.Freezes.{insert_error}

-- INSERT INTO approvals
unfoldable pub insert_approval : Db → Approval → Result RepositoryError Db
insert_approval db approval = do
  rows ← map_err insert_error (
      insert true (λ a. a.approval_id == approval.approval_id || a.run_id == approval.run_id)
        (any (λ r. r.run_id == approval.run_id) db.runs) approval db.approvals)
  ok (record db { approvals = rows })

unfoldable pub create_approval :
    Platform
    → Bool
    → Db
    → Approval
    → RunEvent
    → RunStatus
    → RunStatus
    → Result RepositoryError (Approval × Db)
create_approval p read db approval event expected_status next_status = do
  db₁ ←
      transition db approval.run_id expected_status (some next_status)
        (some (codes "human_review_gate")) approval.decided_at
  db₂ ← insert_approval db₁ approval
  (_, db₃) ← insert_generated_event p read db₂ event
  ok (approval, db₃)

unfoldable pub get_approval : Db → ℕ → Option Approval
get_approval db run_id = find (λ a. a.run_id == run_id) db.approvals

-- INSERT INTO attestation_receipts
unfoldable pub insert_receipt : Db → AttestationReceipt → Result RepositoryError Db
insert_receipt db receipt = do
  rows ← map_err insert_error (
      insert true (λ x. x.attestation_id == receipt.attestation_id || x.run_id == receipt.run_id)
        (any (λ r. r.run_id == receipt.run_id) db.runs) receipt db.attestation_receipts)
  ok (record db { attestation_receipts = rows })

-- `confirmed_at.unwrap_or(submitted_at)`
abbrev pub settled_at : AttestationReceipt → ℕ
settled_at receipt = elim receipt.confirmed_at [ none ↦ receipt.submitted_at | some t ↦ t ]

unfoldable pub create_attestation_receipt :
    Platform
    → Bool
    → Db
    → AttestationReceipt
    → RunEvent
    → RunEvent
    → RunStatus
    → Result RepositoryError (AttestationReceipt × Db)
create_attestation_receipt p read db receipt submitted_event confirmed_event expected_status = do
  db₁ ←
      transition db receipt.run_id expected_status (some success) (some (codes "attest_onchain"))
        (settled_at receipt)
  db₂ ← insert_receipt db₁ receipt
  (_, db₃) ← insert_generated_event p read db₂ submitted_event
  (_, db₄) ← insert_generated_event p read db₃ confirmed_event
  ok (receipt, db₄)

unfoldable pub claim_attestation_attempt : Db → ℕ → ℕ → ℕ → Result RepositoryError Db
claim_attestation_attempt db run_id approval_id claimed_at = do
  rows ← map_err insert_error (
      insert true (λ a. a.run_id == run_id || a.approval_id == approval_id)
        (any (λ r. r.run_id == run_id) db.runs
          && any (λ a. a.approval_id == approval_id) db.approvals)
        (record { run_id = run_id; approval_id = approval_id; claimed_at = claimed_at })
        db.attestation_attempts)
  ok (record db { attestation_attempts = rows })

unfoldable pub get_attestation_receipt : Db → ℕ → Option AttestationReceipt
get_attestation_receipt db run_id = find (λ x. x.run_id == run_id) db.attestation_receipts
