-- ===== src/Domain/Board.antt =====
-- backend/src/domain/evidence_freeze.rs: frozen Evidence Boards and their manifests.
use aleth_os_tool_passport.Prelude.{ℕ, Bool, Option, List, Text}

pub data ClaimStatus : Type 0 where
  supported partially_supported unsupported contradicted not_checked : ClaimStatus

pub data GapPriority : Type 0 where
  high medium low : GapPriority

pub data GapStatus : Type 0 where
  open_gap resolved accepted : GapStatus

-- An `f64`: NaN, an infinity, or a sign with a magnitude in units of 2 ^ -1074, of which every
-- finite `f64` is a multiple.
pub data Float : Type 0 where
  nan : Float
  infinite : Bool → Float
  finite : Bool → ℕ → Float

pub record EvidenceBoardClaim : Type 0 where
  pub claim_id : Text
  pub check_id : Text
  pub statement : Text
  pub status : ClaimStatus
  pub confidence : Float
  pub supports : List ℕ
  pub contradicts : List ℕ

pub record EvidenceBoardGap : Type 0 where
  pub gap_id : Text
  pub check_id : Text
  pub description : Text
  pub priority : GapPriority
  pub status : GapStatus
  pub resolution : Option Text

pub record FreezeEvidenceBoardRequest : Type 0 where
  pub evidence_board_schema_version : Text
  pub version : ℕ
  pub evidence_ids : List ℕ
  pub claims : List EvidenceBoardClaim
  pub gaps : List EvidenceBoardGap
  pub freeze_reason : Text

pub record FrozenEvidenceBoard : Type 0 where
  pub evidence_board_schema_version : Text
  pub run_id : ℕ
  pub version : ℕ
  pub standard_id : Text
  pub standard_version : Text
  pub profile_id : Text
  pub profile_version : Text
  pub evidence_ids : List ℕ
  pub claims : List EvidenceBoardClaim
  pub gaps : List EvidenceBoardGap
  pub freeze_reason : Text
  pub frozen_at : ℕ

pub record EvidenceManifestEntry : Type 0 where
  pub evidence_id : ℕ
  pub content_hash : Text
  pub snapshot_artifact_id : Option ℕ
  pub snapshot_hash : Option Text

pub record FrozenEvidenceManifest : Type 0 where
  pub evidence_manifest_schema_version : Text
  pub run_id : ℕ
  pub evidence_board_version : ℕ
  pub entries : List EvidenceManifestEntry

pub record EvidenceFreezeResult : Type 0 where
  pub evidence_board : FrozenEvidenceBoard
  pub evidence_manifest : FrozenEvidenceManifest
