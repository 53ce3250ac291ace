-- ===== src/Service/Uploads.antt =====
-- `create_artifact`, `create_evidence` and the lists of both in backend/src/services/mod.rs.
use aleth_os_tool_passport.Prelude.{
  ℕ, Bool, false, not, ◌&&◌, ◌||◌, Option, none, some, List, [], ◌∷◌, ltb, leb, ◌==◌, Text, String,
  codes, ◌=ₜ◌, is_empty, trim, Result, ok, err, ◌>>=◌, ◌>>◌, refuse, ok_or, format, says, any,
  strip_prefix, contains, length,
}
use aleth_os_tool_passport.Platform.{Platform}
use aleth_os_tool_passport.Domain.RunEvent.{
  Value, Values, null, num, str, arr, obj, nil, cons, field, end, RunEvent, artifact_created,
  evidence_created,
}
use aleth_os_tool_passport.Domain.Evidence.{
  Artifact, CreateArtifactRequest, Evidence, CreateEvidenceRequest, as_str,
}
use aleth_os_tool_passport.Errors.{
  RepositoryError, ServiceError, run_not_found, invalid_request, repository, storage,
}
use aleth_os_tool_passport.Storage.{
  StoredFile, File, Disk, save_artifact, save_evidence, remove_file,
}
use aleth_os_tool_passport.Store.{Db}
use aleth_os_tool_passport.Store.Events.{get_run}
use aleth_os_tool_passport.Store.Records
use aleth_os_tool_passport.Store.Records.{get_artifact}
use aleth_os_tool_passport.Service.{World, parse_run_id, ensure_run_exists, generated_event}
use aleth_os_tool_passport.Service.Requests.{validate_required}

-- `char::is_control`: the code points of category Cc
abbrev is_control : ℕ → Bool
is_control c = leb c 31 || (leb 127 c && leb c 159)

unfoldable pub is_display_name : Text → Bool
is_display_name name = not (
    contains (codes "/") name
    || contains (codes "\\") name
    || contains (codes "..") name
    || any is_control name)

unfoldable pub validate_artifact_request :
    CreateArtifactRequest → List ℕ → Result ServiceError (Unit {0})
validate_artifact_request request content = do
  validate_required "filename" request.filename 255
  validate_required "content_type" request.content_type 255
  refuse (not (is_display_name request.filename))
      (invalid_request (says "filename must be a plain display name without path components"))
  refuse (is_empty content) (invalid_request (says "artifact content must not be empty"))

-- the loop with its HashSet `unique`
unfoldable pub distinct_references : String → List Text → List Text → Result ServiceError (Unit {0})
distinct_references name unique [] = ok tt
distinct_references name unique (value ∷ values) = do
  validate_required name value 500
  refuse (any (λ s. s =ₜ value) unique)
      (invalid_request (format "{} entries must be unique" (codes name ∷ [])))
  distinct_references name (value ∷ unique) values

unfoldable pub validate_reference_list : String → List Text → Result ServiceError (Unit {0})
validate_reference_list name values = do
  refuse (ltb 200 (length values))
      (invalid_request (format "{} must contain at most 200 entries" (codes name ∷ [])))
  distinct_references name [] values

unfoldable pub is_https : Text → Bool
is_https url = elim (strip_prefix (codes "https://") url) [
  | none ↦ false
  | some remainder ↦ not (is_empty (trim remainder))
]

unfoldable pub validate_revision : Option Text → Result ServiceError (Unit {0})
validate_revision none = ok tt
validate_revision (some revision) = validate_required "source_revision" revision 500

unfoldable pub validate_evidence_request : CreateEvidenceRequest → Result ServiceError (Unit {0})
validate_evidence_request request = do
  refuse (not (request.evidence_schema_version =ₜ codes "0.2.0"))
      (invalid_request (says "evidence_schema_version must be 0.2.0"))
  validate_required "source_url" request.source_url 2048
  refuse (not (is_https request.source_url)) (invalid_request (says "source_url must use HTTPS"))
  validate_required "title" request.title 500
  refuse (ltb 20000 (length request.excerpt))
      (invalid_request (says "excerpt must contain at most 20000 characters"))
  validate_revision request.source_revision
  validate_reference_list "supports" request.supports
  validate_reference_list "contradicts" request.contradicts

-- the IDs and times that a call draws
pub record Fresh : Type 0 where
  pub record_id : ℕ
  pub created_at : ℕ
  pub event_id : ℕ
  pub event_at : ℕ

-- a value that is not there is `null`
abbrev pub or_null {ℓ} : {A : Type ℓ} → (A → Value) → Option A → Value
or_null f none = null
or_null f (some a) = f a

abbrev pub strings : List Text → Values
strings [] = nil
strings (s ∷ ss) = cons (str s) (strings ss)

module _ (p : Platform) where
  unfoldable pub artifact_of : Fresh → ℕ → CreateArtifactRequest → StoredFile → Artifact
  artifact_of fresh run_id request stored = record {
    artifact_schema_version = codes "0.1.0";
    artifact_id = fresh.record_id;
    run_id = run_id;
    filename = request.filename;
    content_type = request.content_type;
    size_bytes = stored.size_bytes;
    sha256_hash = stored.sha256_hash;
    storage_key = stored.storage_key;
    created_at = fresh.created_at;
  }

  unfoldable pub artifact_event : Fresh → Artifact → RunEvent
  artifact_event fresh a = generated_event fresh.event_id fresh.event_at a.run_id artifact_created (
      field (codes "artifact_id") (str (p.uuid_text a.artifact_id)) (
        field (codes "sha256_hash") (str a.sha256_hash)
          (field (codes "size_bytes") (num a.size_bytes) end)))

  -- `serde_json::to_vec(&request)`, its members in the order of the struct
  unfoldable pub request_value : CreateEvidenceRequest → Value
  request_value r = obj (
      field (codes "evidence_schema_version") (str r.evidence_schema_version) (
        field (codes "source_type") (str (as_str r.source_type)) (
          field (codes "source_url") (str r.source_url) (
            field (codes "source_revision") (or_null str r.source_revision) (
              field (codes "title") (str r.title) (
                field (codes "excerpt") (str r.excerpt) (
                  field (codes "retrieved_at") (p.time_value r.retrieved_at) (
                    field (codes "snapshot_artifact_id")
                      (or_null (λ id. str (p.uuid_text id)) r.snapshot_artifact_id)
                      (field (codes "supports") (arr (strings r.supports)) (
                        field (codes "contradicts") (arr (strings r.contradicts))
                          (field (codes "metadata") (obj r.metadata) end)))))))))))

  unfoldable pub evidence_of : Fresh → ℕ → CreateEvidenceRequest → StoredFile → Evidence
  evidence_of fresh run_id request stored = record {
    evidence_schema_version = codes "0.2.0";
    evidence_id = fresh.record_id;
    run_id = run_id;
    source_type = request.source_type;
    source_url = request.source_url;
    source_revision = request.source_revision;
    title = request.title;
    excerpt = request.excerpt;
    retrieved_at = request.retrieved_at;
    snapshot_artifact_id = request.snapshot_artifact_id;
    supports = request.supports;
    contradicts = request.contradicts;
    metadata = request.metadata;
    size_bytes = stored.size_bytes;
    content_hash = stored.sha256_hash;
    storage_key = stored.storage_key;
    created_at = fresh.created_at;
  }

  unfoldable pub evidence_event : Fresh → Evidence → RunEvent
  evidence_event fresh e = generated_event fresh.event_id fresh.event_at e.run_id evidence_created (
      field (codes "content_hash") (str e.content_hash) (
        field (codes "evidence_id") (str (p.uuid_text e.evidence_id)) (
          field (codes "snapshot_artifact_id")
            (or_null (λ id. str (p.uuid_text id)) e.snapshot_artifact_id) end)))

  -- what both calls test before they write
  unfoldable pub accept_artifact :
      Db → Text → CreateArtifactRequest → List ℕ → Result ServiceError ℕ
  accept_artifact db run_id request content = do
    id ← parse_run_id p run_id
    validate_artifact_request request content
    ok_or run_not_found (get_run db id) >>= λ _. ok id

  unfoldable pub check_snapshot : Db → ℕ → Option ℕ → Result ServiceError (Unit {0})
  check_snapshot db run_id none = ok tt
  check_snapshot db run_id (some artifact_id) = do
    artifact ←
        ok_or (invalid_request (says "snapshot_artifact_id must reference an artifact in this run"))
          (get_artifact db artifact_id)
    refuse (not (artifact.run_id == run_id))
        (invalid_request (says "snapshot_artifact_id must reference an artifact in this run"))

  unfoldable pub accept_evidence : Db → Text → CreateEvidenceRequest → Result ServiceError ℕ
  accept_evidence db run_id request = do
    id ← parse_run_id p run_id
    validate_evidence_request request
    ensure_run_exists db id
    check_snapshot db id request.snapshot_artifact_id
    ok id

-- `let _ = self.storage.remove_file(…)`
unfoldable pub removed : Disk → Text → List File → List File
removed disk key files = elim (remove_file disk key files) [ err e ↦ files | ok left ↦ left ]

-- The match at the end of both calls: the event goes out, or the file is taken away again.
unfoldable pub settle {ℓ} :
    {A : Type ℓ}
    → Disk
    → Text
    → RunEvent
    → Result RepositoryError (A × Db)
    → World
    → Result ServiceError A × World
settle disk key event (ok (a, db)) w =
    (ok a, record w { db = db; broadcasts = event ∷ w.broadcasts })
settle disk key event (err e) w =
    (err (repository e), record w { files = removed disk key w.files })

module _ (p : Platform) (disk : Disk) (max_bytes : ℕ) (read : Bool) (fresh : Fresh) where
  unfoldable pub create_artifact :
      Text → CreateArtifactRequest → List ℕ → World → Result ServiceError Artifact × World
  create_artifact run_id request content w = elim (accept_artifact p w.db run_id request content) [
    | err e ↦ (err e, w)
    | ok id ↦ elim (save_artifact p disk max_bytes id fresh.record_id content w.files) [
      | err e ↦ (err (storage e), w)
      | ok (stored, files) ↦
          let artifact = artifact_of p fresh id request stored in
          let event = artifact_event p fresh artifact in
          settle disk artifact.storage_key event
            (Records.create_artifact p read w.db artifact event) (record w { files = files })
    ]
  ]

  unfoldable pub create_evidence :
      Text → CreateEvidenceRequest → World → Result ServiceError Evidence × World
  create_evidence run_id request w = elim (accept_evidence p w.db run_id request) [
    | err e ↦ (err e, w)
    | ok id ↦
        elim (save_evidence p disk max_bytes id fresh.record_id (p.to_vec (request_value p request))
          w.files) [
            | err e ↦ (err (storage e), w)
            | ok (stored, files) ↦
                let evidence = evidence_of p fresh id request stored in
                let event = evidence_event p fresh evidence in
                settle disk evidence.storage_key event
                  (Records.create_evidence p read w.db evidence event) (record w { files = files })
          ]
  ]

unfoldable pub list_artifacts : Platform → Text → World → Result ServiceError (List Artifact)
list_artifacts p run_id w = do
  id ← parse_run_id p run_id
  ensure_run_exists w.db id
  ok (Records.list_artifacts p w.db id)

unfoldable pub list_evidence : Platform → Text → World → Result ServiceError (List Evidence)
list_evidence p run_id w = do
  id ← parse_run_id p run_id
  ensure_run_exists w.db id
  ok (Records.list_evidence p w.db id)
