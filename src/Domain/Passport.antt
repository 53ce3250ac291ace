-- ===== src/Domain/Passport.antt =====
-- backend/src/domain/passport.rs: Passports and the provenance that commits to them.
use aleth_os_tool_passport.Prelude.{ℕ, Option, List, Text}
use aleth_os_tool_passport.Domain.Board.{ClaimStatus}
use aleth_os_tool_passport.Domain.CheckResults.{Rating}

pub data Severity : Type 0 where
  critical high medium low unknown : Severity

pub record PassportStatement : Type 0 where
  pub statement_id : Text
  pub statement : Text
  pub status : ClaimStatus
  pub evidence_ids : List ℕ

pub record PassportRisk : Type 0 where
  pub risk_id : Text
  pub title : Text
  pub severity : Severity
  pub description : Text
  pub mitigation : Option Text
  pub evidence_ids : List ℕ

pub record Recommendation : Type 0 where
  pub summary : Text
  pub conditions : List Text

pub record PassportDimensionScores : Type 0 where
  pub capability_clarity : ℕ
  pub interface_openness : ℕ
  pub automation_readiness : ℕ
  pub data_portability : ℕ
  pub permission_risk : ℕ
  pub evidence_quality : ℕ
  pub ecosystem_fit : ℕ

pub record PassportScores : Type 0 where
  pub dimensions : PassportDimensionScores
  pub total_score : ℕ
  pub rating : Rating

pub record Passport : Type 0 where
  pub passport_version : Text
  pub passport_sequence : ℕ
  pub tool_id : Text
  pub run_id : ℕ
  pub tool_type : Text
  pub target_revision : Option Text
  pub audit_scope : Text
  pub standard_id : Text
  pub standard_version : Text
  pub profile_id : Text
  pub profile_version : Text
  pub evidence_board_version : ℕ
  pub check_results_id : ℕ
  pub capability_claims : List PassportStatement
  pub interfaces : List PassportStatement
  pub risks : List PassportRisk
  pub known_gaps : List Text
  pub scores : PassportScores
  pub recommendation : Recommendation

pub record Provenance : Type 0 where
  pub provenance_schema_version : Text
  pub run_id : ℕ
  pub freeze_version : ℕ
  pub evidence_board_version : ℕ
  pub passport_sequence : ℕ
  pub passport_hash : Text
  pub audit_log_hash : Text
  pub evidence_manifest_hash : Text
  pub onchain_run_id : Text
  pub frozen_at : ℕ

pub record FreezePassportRequest : Type 0 where
  pub passport_version : Text
  pub evidence_board_version : ℕ
  pub target_revision : Option Text
  pub audit_scope : Text
  pub capability_claims : List PassportStatement
  pub interfaces : List PassportStatement
  pub risks : List PassportRisk
  pub known_gaps : List Text
  pub recommendation : Recommendation

pub record PassportFreezeResult : Type 0 where
  pub passport : Passport
  pub provenance : Provenance
