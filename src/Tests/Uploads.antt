-- ===== src/Tests/Uploads.antt =====
-- Uploads that succeed, and uploads whose record is refused.
use aleth_os_tool_passport.Prelude.{
  ℕ, ◌≡◌, refl, true, none, some, [], ◌∷◌, ◌++◌, codes, trim, Result, ok, err, split_on,
  starts_with, strip_prefix, contains, is_whitespace, trim_end, trim_start,
}
use aleth_os_tool_passport.Service.Requests.{validate_required}
use aleth_os_tool_passport.Store.Events.{
  canonical_input, canonical_sha256, compute_event_hash, get_run, has_length, insert_event_row,
  insert_generated_event, insert_linked, latest, linked, next_sequence_and_prev_hash, pick,
  sha256_hex, update_runs,
}
use aleth_os_tool_passport.Store.Records
use aleth_os_tool_passport.Domain.Evidence
use aleth_os_tool_passport.Domain.Run.{pending}
use aleth_os_tool_passport.Domain.RunEvent.{end, as_str}
use aleth_os_tool_passport.Domain.Evidence.{
  Artifact, CreateArtifactRequest, Evidence, CreateEvidenceRequest, official_docs,
}
use aleth_os_tool_passport.Errors.{ServiceError, run_not_found}
use aleth_os_tool_passport.Storage.{
  Disk, is_plain_key, remove_file, resolve_storage_key, save_artifact, save_file, save_evidence,
}
use aleth_os_tool_passport.Store.{Db, empty, has_text, insert}
use aleth_os_tool_passport.Store.Records.{
  get_artifact, insert_artifact, is_stored_hash, insert_evidence,
}
use aleth_os_tool_passport.Service.{World, generated_event, parse_run_id, ensure_run_exists}
use aleth_os_tool_passport.Service.Uploads.{
  Fresh, create_artifact, create_evidence, request_value, accept_artifact, artifact_event,
  artifact_of, is_display_name, removed, settle, validate_artifact_request, accept_evidence,
  check_snapshot, distinct_references, evidence_event, evidence_of, is_https,
  validate_evidence_request, validate_reference_list, validate_revision,
}
use aleth_os_tool_passport.Service.Undone.{create_artifact-undone, create_evidence-undone}
use aleth_os_tool_passport.Service.Saved.{
  IsKeptIn, create_artifact-IsKeptIn, create_evidence-IsKeptIn,
}
use aleth_os_tool_passport.Tests.Fixtures.{digits_only, run_at, run_id, hash_a, world_of, or_else}

abbrev disk : Disk
disk = record { resolves = λ key. ok tt; writes = λ key. true; unlinks = λ key. true }

abbrev fresh : Fresh
fresh = record { record_id = 70; created_at = 5; event_id = 71; event_at = 6 }

abbrev file : CreateArtifactRequest
file = record { filename = codes "readme.txt"; content_type = codes "text/plain" }

abbrev source : CreateEvidenceRequest
source = record {
  evidence_schema_version = codes "0.2.0";
  source_type = official_docs;
  source_url = codes "https://example.com";
  source_revision = none;
  title = codes "Docs";
  excerpt = [];
  retrieved_at = 4;
  snapshot_artifact_id = none;
  supports = [];
  contradicts = [];
  metadata = end;
}

abbrev pub stored_artifact : Artifact
stored_artifact = record {
  artifact_schema_version = codes "0.1.0";
  artifact_id = 70;
  run_id = 65;
  filename = codes "other.txt";
  content_type = codes "text/plain";
  size_bytes = 1;
  sha256_hash = hash_a;
  storage_key = codes "other";
  created_at = 3;
}

abbrev pub stored_evidence : ℕ → Evidence
stored_evidence id = record {
  evidence_schema_version = codes "0.2.0";
  evidence_id = id;
  run_id = 65;
  source_type = official_docs;
  source_url = codes "https://example.com";
  source_revision = none;
  title = codes "Docs";
  excerpt = [];
  retrieved_at = 4;
  snapshot_artifact_id = none;
  supports = [];
  contradicts = [];
  metadata = end;
  size_bytes = 1;
  content_hash = hash_a;
  storage_key = codes "e" ++ (id ∷ []);
  created_at = 3;
}

abbrev open_run : Db
open_run = record empty { runs = run_at pending ∷ [] }

-- a record with the ID that the call draws is there already
abbrev taken : Db
taken = record open_run { artifacts = stored_artifact ∷ []; evidence = stored_evidence 70 ∷ [] }

abbrev answered {ℓ} : {A : Type ℓ} → A → Result ServiceError A × World → A
answered a (outcome, w) = or_else a outcome

abbrev saved : Result ServiceError Artifact × World
saved = create_artifact digits_only disk 100 true fresh run_id file (1 ∷ 2 ∷ []) (world_of open_run)

abbrev kept_artifact : Artifact
kept_artifact = answered stored_artifact saved

saved-ok :
    create_artifact digits_only disk 100 true fresh run_id file (1 ∷ 2 ∷ []) (world_of open_run)
    ≡ (ok kept_artifact, saved.1)
unfolding as_str contains is_whitespace split_on starts_with trim trim_end trim_start
    validate_required accept_artifact artifact_event artifact_of create_artifact is_display_name
    removed settle validate_artifact_request generated_event parse_run_id is_plain_key remove_file
    resolve_storage_key save_artifact save_file canonical_input canonical_sha256 compute_event_hash
    get_run has_length insert_event_row insert_generated_event insert_linked latest linked
    next_sequence_and_prev_hash pick sha256_hex update_runs Records.create_artifact insert_artifact
    is_stored_hash has_text insert
saved-ok = refl

create_artifact-IsKeptIn_example :
    (get_artifact saved.1.db kept_artifact.artifact_id ≡ some kept_artifact)
    × IsKeptIn digits_only 100
        (1 ∷ 2 ∷ [])
        saved.1.files
        kept_artifact.storage_key
        kept_artifact.size_bytes
        kept_artifact.sha256_hash
create_artifact-IsKeptIn_example =
    create_artifact-IsKeptIn digits_only true disk 100 fresh run_id file (1 ∷ 2 ∷ [])
      (world_of open_run) saved.1 kept_artifact saved-ok

abbrev failure_of {ℓ} : {A : Type ℓ} → Result ServiceError A → ServiceError
failure_of (ok a) = run_not_found
failure_of (err e) = e

abbrev lost : Result ServiceError Artifact × World
lost = create_artifact digits_only disk 100 true fresh run_id file (1 ∷ 2 ∷ []) (world_of taken)

lost-err :
    create_artifact digits_only disk 100 true fresh run_id file (1 ∷ 2 ∷ []) (world_of taken)
    ≡ (err (failure_of lost.0), lost.1)
unfolding as_str contains is_whitespace split_on starts_with trim trim_end trim_start
    validate_required accept_artifact artifact_event artifact_of create_artifact is_display_name
    removed settle validate_artifact_request generated_event parse_run_id is_plain_key remove_file
    resolve_storage_key save_artifact save_file canonical_input canonical_sha256 compute_event_hash
    get_run has_length insert_event_row insert_generated_event insert_linked latest linked
    next_sequence_and_prev_hash pick sha256_hex update_runs Records.create_artifact insert_artifact
    is_stored_hash has_text insert
lost-err = refl

create_artifact-undone_example : lost.1 ≡ world_of taken
create_artifact-undone_example =
    create_artifact-undone digits_only disk 100 true fresh run_id file (1 ∷ 2 ∷ []) (world_of taken)
      lost.1 (failure_of lost.0) (λ key. refl) lost-err

abbrev noted : Result ServiceError Evidence × World
noted = create_evidence digits_only disk 100 true fresh run_id source (world_of open_run)

abbrev kept_evidence : Evidence
kept_evidence = answered (stored_evidence 70) noted

noted-ok :
    create_evidence digits_only disk 100 true fresh run_id source (world_of open_run)
    ≡ (ok kept_evidence, noted.1)
unfolding Evidence.as_str as_str is_whitespace split_on strip_prefix trim trim_end trim_start
    validate_required accept_evidence check_snapshot create_evidence distinct_references
    evidence_event evidence_of is_https removed request_value settle validate_evidence_request
    validate_reference_list validate_revision ensure_run_exists generated_event parse_run_id
    is_plain_key remove_file resolve_storage_key save_evidence save_file canonical_input
    canonical_sha256 compute_event_hash get_run has_length insert_event_row insert_generated_event
    insert_linked latest linked next_sequence_and_prev_hash pick sha256_hex update_runs
    Records.create_evidence get_artifact insert_evidence is_stored_hash has_text insert
noted-ok = refl

create_evidence-IsKeptIn_example :
    (noted.1.db.evidence ≡ kept_evidence ∷ (world_of open_run).db.evidence)
    × IsKeptIn digits_only 100
        (digits_only.to_vec (request_value digits_only source))
        noted.1.files
        kept_evidence.storage_key
        kept_evidence.size_bytes
        kept_evidence.content_hash
create_evidence-IsKeptIn_example =
    create_evidence-IsKeptIn digits_only true disk 100 fresh run_id source (world_of open_run)
      noted.1 kept_evidence noted-ok

abbrev dropped : Result ServiceError Evidence × World
dropped = create_evidence digits_only disk 100 true fresh run_id source (world_of taken)

dropped-err :
    create_evidence digits_only disk 100 true fresh run_id source (world_of taken)
    ≡ (err (failure_of dropped.0), dropped.1)
unfolding Evidence.as_str as_str is_whitespace split_on strip_prefix trim trim_end trim_start
    validate_required accept_evidence check_snapshot create_evidence distinct_references
    evidence_event evidence_of is_https removed request_value settle validate_evidence_request
    validate_reference_list validate_revision ensure_run_exists generated_event parse_run_id
    is_plain_key remove_file resolve_storage_key save_evidence save_file canonical_input
    canonical_sha256 compute_event_hash get_run has_length insert_event_row insert_generated_event
    insert_linked latest linked next_sequence_and_prev_hash pick sha256_hex update_runs
    Records.create_evidence get_artifact insert_evidence is_stored_hash has_text insert
dropped-err = refl

create_evidence-undone_example : dropped.1 ≡ world_of taken
create_evidence-undone_example =
    create_evidence-undone digits_only disk 100 true fresh run_id source (world_of taken) dropped.1
      (failure_of dropped.0) (λ key. refl) dropped-err
