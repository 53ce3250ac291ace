-- ===== src/Domain/Approval.antt =====
-- backend/src/domain/approval.rs and attestation.rs: human decisions and onchain receipts.
use aleth_os_tool_passport.Prelude.{ℕ, Option, Text, codes}

pub data ApprovalDecision : Type 0 where
  approve_offchain approve_testnet_attestation reject : ApprovalDecision

unfoldable pub as_str : ApprovalDecision → Text
as_str approve_offchain = codes "approve_offchain"
as_str approve_testnet_attestation = codes "approve_testnet_attestation"
as_str reject = codes "reject"

pub record CreateApprovalRequest : Type 0 where
  pub approval_schema_version : Text
  pub decision : ApprovalDecision
  pub passport_sequence : ℕ
  pub passport_hash : Text
  pub audit_log_hash : Text
  pub evidence_manifest_hash : Text
  pub chain_id : Option ℕ
  pub registry_contract : Option Text

pub record Approval : Type 0 where
  pub approval_schema_version : Text
  pub approval_id : ℕ
  pub run_id : ℕ
  pub decision : ApprovalDecision
  pub passport_sequence : ℕ
  pub passport_hash : Text
  pub audit_log_hash : Text
  pub evidence_manifest_hash : Text
  pub chain_id : Option ℕ
  pub registry_contract : Option Text
  pub decided_at : ℕ

pub data AttestationStatus : Type 0 where
  submitted confirmed failed : AttestationStatus

pub record AttestationReceipt : Type 0 where
  pub attestation_receipt_schema_version : Text
  pub attestation_id : ℕ
  pub run_id : ℕ
  pub tool_id : Text
  pub passport_hash : Text
  pub audit_log_hash : Text
  pub evidence_manifest_hash : Text
  pub onchain_run_id : Text
  pub chain_id : ℕ
  pub registry_contract : Text
  pub status : AttestationStatus
  pub transaction_hash : Option Text
  pub submitted_at : ℕ
  pub confirmed_at : Option ℕ

pub record AttestationCommitment : Type 0 where
  pub run_id : ℕ
  pub tool_id : Text
  pub tool_type : Text
  pub passport_hash : Text
  pub audit_log_hash : Text
  pub evidence_manifest_hash : Text
  pub onchain_run_id : Text
  pub chain_id : ℕ
  pub registry_contract : Text
