-- ===== src/Store.antt =====
-- The tables of backend/migrations, as lists of rows with the last insertion first, and what an
-- INSERT checks: PRIMARY KEY and UNIQUE, foreign keys (`foreign_keys(true)`), and CHECK.
-- JSON columns hold the value that serde_json writes and reads back.
pub mod Events
pub mod Chain
pub mod Logged
pub mod Tamper
pub mod Freezes
pub mod Approvals
pub mod Kept
pub mod Decisions
pub mod Runs
pub mod Records
pub mod Boards
pub mod Writes
pub mod WriteOnce
pub mod Sequences
pub mod Listings
pub mod Tools
pub mod Numbers
pub mod ToolRows
use aleth_os_tool_passport.Prelude.{
  ℕ, zero, suc, ◌+◌, ◌-◌, ◌*◌, ◌/◌, ◌%◌, ◌^◌, ◌≤◌, ◌<◌, min, ◌≡◌, refl, ◌≢◌, ◌⊎◌, inl, inr, Bool,
  true, false, not, ◌&&◌, ◌||◌, Option, none, some, List, [], ◌∷◌, ◌++◌, map, arith, ltb, leb, ◌==◌,
  if◌then◌else◌, Text, codes, ◌=ₜ◌, =ₜ_iff, =ₜ_refl, is_empty, trim, Result, ok, err, ◌>>=◌, ◌>>◌,
  refuse, ok_or, map_err, Message, format, says, All, any, all, find, keep, length, is_some,
  Bool-cases, Option-cases,
}
use aleth_os_tool_passport.Domain.Run.{Run}
use aleth_os_tool_passport.Domain.RunEvent.{RunEvent}
use aleth_os_tool_passport.Domain.Tool.{ExternalIdentifier, ToolType}
use aleth_os_tool_passport.Domain.CheckResults.{CheckResults}
use aleth_os_tool_passport.Domain.Evidence.{Artifact, Evidence}
use aleth_os_tool_passport.Domain.Board.{FrozenEvidenceBoard, FrozenEvidenceManifest}
use aleth_os_tool_passport.Domain.Passport.{Passport, Provenance}
use aleth_os_tool_passport.Domain.Approval.{Approval, AttestationReceipt}
use aleth_os_tool_passport.Errors.{SqlError, foreign_key, check_constraint, unique_constraint}

pub record ToolRow : Type 0 where
  pub tool_id : Text
  pub name : Text
  pub tool_type : ToolType
  pub canonical_url : Text
  pub external_identifiers : List ExternalIdentifier
  pub created_at : ℕ
  pub updated_at : ℕ

pub record ToolExternalIdRow : Type 0 where
  pub namespace : Text
  pub value : Text
  pub tool_id : Text
  pub canonical_url : Text

pub record ToolAliasRow : Type 0 where
  pub tool_id : Text
  pub alias : Text

pub record AttemptRow : Type 0 where
  pub run_id : ℕ
  pub approval_id : ℕ
  pub claimed_at : ℕ

pub record ManifestRow : Type 0 where
  pub run_id : ℕ
  pub evidence_board_version : ℕ
  pub manifest : FrozenEvidenceManifest

pub record ProvenanceRow : Type 0 where
  pub run_id : ℕ
  pub freeze_version : ℕ
  pub provenance : Provenance

pub record Db : Type 0 where
  pub runs : List Run
  pub run_events : List RunEvent
  pub tools : List ToolRow
  pub tool_external_ids : List ToolExternalIdRow
  pub tool_aliases : List ToolAliasRow
  pub artifacts : List Artifact
  pub evidence : List Evidence
  pub check_results : List CheckResults
  pub evidence_boards : List FrozenEvidenceBoard
  pub evidence_manifests : List ManifestRow
  pub passports : List Passport
  pub provenances : List ProvenanceRow
  pub approvals : List Approval
  pub attestation_attempts : List AttemptRow
  pub attestation_receipts : List AttestationReceipt

abbrev pub empty : Db
empty = record {
  runs = [];
  run_events = [];
  tools = [];
  tool_external_ids = [];
  tool_aliases = [];
  artifacts = [];
  evidence = [];
  check_results = [];
  evidence_boards = [];
  evidence_manifests = [];
  passports = [];
  provenances = [];
  approvals = [];
  attestation_attempts = [];
  attestation_receipts = [];
}

-- `length(trim(x)) > 0` of SQLite: its trim takes off spaces only, its length stops at NUL
unfoldable pub has_text : Text → Bool
has_text [] = false
has_text (c ∷ s) = if c == 32 then has_text s else not (c == 0)

-- One statement: CHECK, then uniqueness; foreign keys are enforced at the end of the statement.
unfoldable pub insert {ℓ} :
    {A : Type ℓ}
    → (check : Bool) (clash : A → Bool) (refers : Bool) → A
    → List A
    → Result SqlError (List A)
insert check clash refers row rows =
    if not check
    then err check_constraint
    else if any clash rows
    then err unique_constraint
    else if not refers
    then err foreign_key
    else ok (row ∷ rows)
