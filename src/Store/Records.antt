-- ===== src/Store/Records.antt =====
-- Artifacts and evidence in backend/src/repository/mod.rs.
use aleth_os_tool_passport.Prelude.{
  ℕ, suc, Bool, true, false, ◌&&◌, ◌||◌, Option, none, some, List, [], ◌∷◌, leb, ◌==◌,
  if◌then◌else◌, Text, ◌=ₜ◌, Result, ok, ◌>>=◌, map_err, any, sort_on, find, keep,
}
use aleth_os_tool_passport.Platform.{Platform}
use aleth_os_tool_passport.Domain.RunEvent.{RunEvent}
use aleth_os_tool_passport.Domain.Evidence.{Artifact, Evidence}
use aleth_os_tool_passport.Errors.{RepositoryError, database}
use aleth_os_tool_passport.Store.{Db, insert, has_text}
use aleth_os_tool_passport.Store.Events.{insert_generated_event}

-- `length` of SQLite stops at NUL.
abbrev sql_length : Text → ℕ
sql_length [] = 0
sql_length (c ∷ s) = let rest = sql_length s in if c == 0 then 0 else suc rest

abbrev is_hash_glob : Text → Bool
is_hash_glob (a ∷ b ∷ c ∷ s) =
    a == 48 && b == 120 && ((leb 48 c && leb c 57) || (leb 97 c && leb c 102))
is_hash_glob _ = false

-- `length(x) = 66 AND x GLOB '0x[0-9a-f]*'`
unfoldable pub is_stored_hash : Text → Bool
is_stored_hash s = sql_length s == 66 && is_hash_glob s

unfoldable pub insert_artifact : Db → Artifact → Result RepositoryError Db
insert_artifact db artifact = do
  rows ← map_err database (
      insert
        (has_text artifact.filename
          && has_text artifact.content_type
          && is_stored_hash artifact.sha256_hash
          && has_text artifact.storage_key)
        (λ a. a.artifact_id == artifact.artifact_id || a.storage_key =ₜ artifact.storage_key)
        (any (λ r. r.run_id == artifact.run_id) db.runs) artifact db.artifacts)
  ok (record db { artifacts = rows })

unfoldable pub create_artifact :
    Platform → Bool → Db → Artifact → RunEvent → Result RepositoryError (Artifact × Db)
create_artifact p read db artifact event = do
  db₁ ← insert_artifact db artifact
  (_, db₂) ← insert_generated_event p read db₁ event
  ok (artifact, db₂)

unfoldable pub get_artifact : Db → ℕ → Option Artifact
get_artifact db artifact_id = find (λ a. a.artifact_id == artifact_id) db.artifacts

-- `ORDER BY created_at ASC, artifact_id ASC`, as the order on the ID and then a stable one
unfoldable pub list_artifacts : Platform → Db → ℕ → List Artifact
list_artifacts p db run_id =
    sort_on (λ a. p.format_timestamp a.created_at)
      (sort_on (λ a. p.uuid_text a.artifact_id) (keep (λ a. a.run_id == run_id) db.artifacts))

-- a snapshot refers to an artifact
abbrev refers_to_artifact : Db → Option ℕ → Bool
refers_to_artifact db none = true
refers_to_artifact db (some id) = any (λ a. a.artifact_id == id) db.artifacts

unfoldable pub insert_evidence : Db → Evidence → Result RepositoryError Db
insert_evidence db evidence = do
  rows ← map_err database (
      insert
        (has_text evidence.source_url
          && has_text evidence.title
          && is_stored_hash evidence.content_hash
          && has_text evidence.storage_key)
        (λ e. e.evidence_id == evidence.evidence_id || e.storage_key =ₜ evidence.storage_key)
        (any (λ r. r.run_id == evidence.run_id) db.runs
          && refers_to_artifact db evidence.snapshot_artifact_id)
        evidence db.evidence)
  ok (record db { evidence = rows })

unfoldable pub create_evidence :
    Platform → Bool → Db → Evidence → RunEvent → Result RepositoryError (Evidence × Db)
create_evidence p read db evidence event = do
  db₁ ← insert_evidence db evidence
  (_, db₂) ← insert_generated_event p read db₁ event
  ok (evidence, db₂)

unfoldable pub list_evidence : Platform → Db → ℕ → List Evidence
list_evidence p db run_id =
    sort_on (λ e. p.format_timestamp e.created_at)
      (sort_on (λ e. p.uuid_text e.evidence_id) (keep (λ e. e.run_id == run_id) db.evidence))
