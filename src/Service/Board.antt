-- ===== src/Service/Board.antt =====
-- backend/src/services/mod.rs: the freeze of an Evidence Board.
use aleth_os_tool_passport.Prelude.{
  ℕ, ◌^◌, Bool, false, not, Option, none, some, List, [], ◌∷◌, leb, ◌==◌, if◌then◌else◌, Text,
  codes, ◌=ₜ◌, trim, Result, ok, ◌>>=◌, ◌>>◌, refuse, ok_or, map_err, format, says, sort_on,
  find_last, length,
}
use aleth_os_tool_passport.Platform.{Platform}
use aleth_os_tool_passport.Domain.Run.{Run}
use aleth_os_tool_passport.Domain.RunEvent.{RunEvent, evidence_board_frozen, num, field, end}
use aleth_os_tool_passport.Domain.Evidence.{Artifact, Evidence}
use aleth_os_tool_passport.Domain.Board.{
  Float, nan, infinite, finite, EvidenceBoardClaim, EvidenceBoardGap, FreezeEvidenceBoardRequest,
  EvidenceManifestEntry, EvidenceFreezeResult,
}
use aleth_os_tool_passport.Errors.{
  RepositoryError, unique_violation, invalid_stored_data, ServiceError, run_not_found,
  invalid_request, evidence_board_already_frozen, evidence_board_not_found, repository,
}
use aleth_os_tool_passport.Store.{Db}
use aleth_os_tool_passport.Store.Events.{get_run}
use aleth_os_tool_passport.Store.Records.{list_artifacts, list_evidence}
use aleth_os_tool_passport.Store.Boards
use aleth_os_tool_passport.Scoring.Catalog.{audit_binding_check_ids}
use aleth_os_tool_passport.Scoring.Messages.{to_string}
use aleth_os_tool_passport.Service.{World, parse_run_id, ensure_run_exists, generated_event}
use aleth_os_tool_passport.Service.Requests.{validate_non_empty, validate_evidence_board_version}
use aleth_os_tool_passport.Service.References.{
  validate_check_id, ensure_unique_uuids, normalize_evidence_references,
}
use aleth_os_tool_passport.Service.Named.{each_named}

-- the ID and the times that the call draws
pub record Fresh : Type 0 where
  pub frozen_at : ℕ
  pub event_id : ℕ
  pub event_at : ℕ

unfoldable pub validate_freeze_header : FreezeEvidenceBoardRequest → Result ServiceError (Unit {0})
validate_freeze_header request = do
  refuse (not (request.evidence_board_schema_version =ₜ codes "0.1.0"))
      (invalid_request (says "evidence_board_schema_version must be 0.1.0"))
  validate_evidence_board_version request.version
  validate_non_empty "freeze_reason" request.freeze_reason

-- `is_finite() && (0.0..=1.0).contains(…)`, where `-0.0` counts as 0
unfoldable pub is_confidence : Float → Bool
is_confidence nan = false
is_confidence (infinite negative) = false
is_confidence (finite negative magnitude) =
    if negative then magnitude == 0 else leb magnitude (2 ^ 1074)

abbrev pub duplicated_claim : Text → ServiceError
duplicated_claim id = invalid_request (format "claim ID {} is duplicated" (id ∷ []))

abbrev pub duplicated_gap : Text → ServiceError
duplicated_gap id = invalid_request (format "gap ID {} is duplicated" (id ∷ []))

-- the rest of the body of the loop over gaps
unfoldable pub normalize_resolution : Option Text → Result ServiceError (Option Text)
normalize_resolution none = ok none
normalize_resolution (some resolution) = do
  validate_non_empty "gap resolution" resolution
  ok (some (trim resolution))

unfoldable pub normalize_gap : List Text → EvidenceBoardGap → Result ServiceError EvidenceBoardGap
normalize_gap check_ids gap = do
  validate_check_id check_ids gap.check_id
  validate_non_empty "gap description" gap.description
  resolution ← normalize_resolution gap.resolution
  ok (record gap { description = trim gap.description; resolution = resolution })

module _ (p : Platform) where
  -- the rest of the body of the loop over claims
  unfoldable pub normalize_claim :
      List Text → List ℕ → EvidenceBoardClaim → Result ServiceError EvidenceBoardClaim
  normalize_claim check_ids board claim = do
    validate_check_id check_ids claim.check_id
    validate_non_empty "claim statement" claim.statement
    refuse (not (is_confidence claim.confidence)) (
        invalid_request
          (format "claim {} confidence must be between 0 and 1" (claim.claim_id ∷ [])))
    supports ← normalize_evidence_references p claim.claim_id "supports" claim.supports board
    contradicts ←
        normalize_evidence_references p claim.claim_id "contradicts" claim.contradicts board
    ok (record claim {
      supports = supports;
      contradicts = contradicts;
      statement = trim claim.statement;
    })

  -- The loop that looks the IDs up in `evidence_by_id`. It keeps what it finds, which is what the
  -- later loop looks up again.
  unfoldable pub evidence_of_board : List Evidence → List ℕ → Result ServiceError (List Evidence)
  evidence_of_board stored [] = ok []
  evidence_of_board stored (id ∷ ids) = do
    evidence ←
        ok_or
          (invalid_request
            (format "evidence ID {} does not belong to the run" (p.uuid_text id ∷ [])))
          (find_last (λ e. e.evidence_id == id) stored)
    rest ← evidence_of_board stored ids
    ok (evidence ∷ rest)

  unfoldable pub snapshot_hash : List Artifact → ℕ → Option ℕ → Result ServiceError (Option Text)
  snapshot_hash artifacts evidence_id none = ok none
  snapshot_hash artifacts evidence_id (some artifact_id) = do
    artifact ←
        ok_or
          (repository (
            invalid_stored_data (
              format "evidence {} references missing snapshot artifact {}"
                (p.uuid_text evidence_id ∷ p.uuid_text artifact_id ∷ []))))
          (find_last (λ a. a.artifact_id == artifact_id) artifacts)
    ok (some artifact.sha256_hash)

  unfoldable pub manifest_entries :
      List Artifact → List Evidence → Result ServiceError (List EvidenceManifestEntry)
  manifest_entries artifacts [] = ok []
  manifest_entries artifacts (e ∷ es) = do
    hash ← snapshot_hash artifacts e.evidence_id e.snapshot_artifact_id
    rest ← manifest_entries artifacts es
    ok (
        record {
          evidence_id = e.evidence_id;
          content_hash = e.content_hash;
          snapshot_artifact_id = e.snapshot_artifact_id;
          snapshot_hash = hash;
        }
        ∷ rest)

-- the value that is stored
unfoldable pub freeze_of :
    Fresh
    → Run
    → FreezeEvidenceBoardRequest
    → List ℕ
    → List EvidenceBoardClaim
    → List EvidenceBoardGap
    → List EvidenceManifestEntry
    → EvidenceFreezeResult
freeze_of fresh run request ids claims gaps entries = record {
  evidence_board = record {
    evidence_board_schema_version = codes "0.1.0";
    run_id = run.run_id;
    version = request.version;
    standard_id = run.audit_binding.standard_id;
    standard_version = run.audit_binding.standard_version;
    profile_id = run.audit_binding.profile_id;
    profile_version = run.audit_binding.profile_version;
    evidence_ids = ids;
    claims = claims;
    gaps = gaps;
    freeze_reason = trim request.freeze_reason;
    frozen_at = fresh.frozen_at;
  };
  evidence_manifest = record {
    evidence_manifest_schema_version = codes "0.1.0";
    run_id = run.run_id;
    evidence_board_version = request.version;
    entries = entries;
  };
}

unfoldable pub frozen_event : Fresh → EvidenceFreezeResult → RunEvent
frozen_event fresh freeze =
    let board = freeze.evidence_board in
    generated_event fresh.event_id fresh.event_at board.run_id evidence_board_frozen (
      field (codes "claim_count") (num (length board.claims)) (
        field (codes "evidence_board_version") (num board.version) (
          field (codes "evidence_count") (num (length board.evidence_ids))
            (field (codes "gap_count") (num (length board.gaps)) end))))

unfoldable pub freeze_error : RepositoryError → ServiceError
freeze_error unique_violation = evidence_board_already_frozen
freeze_error other = repository other

-- the freeze that a request asks for, before it is stored
unfoldable pub prepare_freeze :
    Platform
    → Fresh
    → Db
    → Run
    → FreezeEvidenceBoardRequest
    → Result ServiceError EvidenceFreezeResult
prepare_freeze p fresh db run request = do
  check_ids ←
      map_err (λ e. invalid_request (to_string p e)) (audit_binding_check_ids run.audit_binding)
  ensure_unique_uuids p (codes "evidence_ids") request.evidence_ids
  let ids = sort_on p.uuid_text request.evidence_ids
  evidence ← evidence_of_board p (list_evidence p db run.run_id) ids
  claims ←
      each_named (λ c. c.claim_id) "claim_id" duplicated_claim (normalize_claim p check_ids ids) []
        request.claims
  gaps ←
      each_named (λ g. g.gap_id) "gap_id" duplicated_gap (normalize_gap check_ids) [] request.gaps
  entries ← manifest_entries p (list_artifacts p db run.run_id) evidence
  ok (
      freeze_of fresh run request ids (sort_on (λ c. c.claim_id) claims)
        (sort_on (λ g. g.gap_id) gaps) entries)

unfoldable pub freeze_evidence_board :
    Platform
    → Bool
    → Fresh
    → Text
    → FreezeEvidenceBoardRequest
    → World
    → Result ServiceError (EvidenceFreezeResult × World)
freeze_evidence_board p read fresh run_id request w = do
  id ← parse_run_id p run_id
  run ← ok_or run_not_found (get_run w.db id)
  validate_freeze_header request
  freeze ← prepare_freeze p fresh w.db run request
  let event = frozen_event fresh freeze
  (freeze', db) ← map_err freeze_error (Boards.create_evidence_freeze p read w.db freeze event)
  ok (freeze', record w { db = db; broadcasts = event ∷ w.broadcasts })

unfoldable pub get_evidence_freeze :
    Platform → Text → ℕ → World → Result ServiceError EvidenceFreezeResult
get_evidence_freeze p run_id version w = do
  id ← parse_run_id p run_id
  validate_evidence_board_version version
  ensure_run_exists w.db id
  ok_or evidence_board_not_found (Boards.get_evidence_freeze w.db id version)
