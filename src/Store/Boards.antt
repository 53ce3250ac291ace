-- ===== src/Store/Boards.antt =====
-- Frozen Evidence Boards and Check Results in backend/src/repository/mod.rs.
use aleth_os_tool_passport.Prelude.{
  ℕ, Bool, ◌&&◌, ◌||◌, Option, none, some, List, [], ◌∷◌, ltb, leb, ◌==◌, if◌then◌else◌, Result, ok,
  ◌>>=◌, map_err, any, find,
}
use aleth_os_tool_passport.Platform.{Platform}
use aleth_os_tool_passport.Domain.RunEvent.{RunEvent}
use aleth_os_tool_passport.Domain.Board.{FrozenEvidenceBoard, EvidenceFreezeResult}
use aleth_os_tool_passport.Domain.CheckResults.{CheckResults}
use aleth_os_tool_passport.Errors.{RepositoryError, database}
use aleth_os_tool_passport.Store.{Db, ManifestRow, insert, has_text}
use aleth_os_tool_passport.Store.Events.{insert_generated_event}
use aleth_os_tool_passport.Store.Freezes.{insert_error}

unfoldable pub insert_board : Db → FrozenEvidenceBoard → Result RepositoryError Db
insert_board db board = do
  rows ← map_err insert_error (
      insert (ltb 0 board.version) (λ b. b.run_id == board.run_id && b.version == board.version)
        (any (λ r. r.run_id == board.run_id) db.runs) board db.evidence_boards)
  ok (record db { evidence_boards = rows })

-- its failure is a plain database error
unfoldable pub insert_manifest : Db → ManifestRow → Result RepositoryError Db
insert_manifest db row = do
  rows ← map_err database (
      insert (ltb 0 row.evidence_board_version)
        (λ m. m.run_id == row.run_id && m.evidence_board_version == row.evidence_board_version)
        (any (λ b. b.run_id == row.run_id && b.version == row.evidence_board_version)
          db.evidence_boards)
        row db.evidence_manifests)
  ok (record db { evidence_manifests = rows })

-- the row of the manifest has the key of the board
abbrev pub manifest_row : EvidenceFreezeResult → ManifestRow
manifest_row freeze = record {
  run_id = freeze.evidence_board.run_id;
  evidence_board_version = freeze.evidence_board.version;
  manifest = freeze.evidence_manifest;
}

unfoldable pub create_evidence_freeze :
    Platform
    → Bool
    → Db
    → EvidenceFreezeResult
    → RunEvent
    → Result RepositoryError (EvidenceFreezeResult × Db)
create_evidence_freeze p read db freeze event = do
  db₁ ← insert_board db freeze.evidence_board
  db₂ ← insert_manifest db₁ (manifest_row freeze)
  (_, db₃) ← insert_generated_event p read db₂ event
  ok (freeze, db₃)

-- the row of the join
abbrev pub join : Option FrozenEvidenceBoard → Option ManifestRow → Option EvidenceFreezeResult
join (some board) (some row) =
    some (record { evidence_board = board; evidence_manifest = row.manifest })
join _ _ = none

unfoldable pub get_evidence_freeze : Db → ℕ → ℕ → Option EvidenceFreezeResult
get_evidence_freeze db run_id version =
    join (find (λ b. b.run_id == run_id && b.version == version) db.evidence_boards)
      (find (λ m. m.run_id == run_id && m.evidence_board_version == version) db.evidence_manifests)

unfoldable pub insert_check_results : Db → CheckResults → Result RepositoryError Db
insert_check_results db r = do
  rows ← map_err insert_error (
      insert
        (ltb 0 r.evidence_board_version
          && has_text r.standard_id
          && has_text r.standard_version
          && has_text r.profile_id
          && has_text r.profile_version
          && leb r.total_score 100)
        (λ x.
          x.check_results_id == r.check_results_id
          || (x.run_id == r.run_id && x.evidence_board_version == r.evidence_board_version))
        (any (λ x. x.run_id == r.run_id) db.runs) r db.check_results)
  ok (record db { check_results = rows })

unfoldable pub create_check_results :
    Platform → Bool → Db → CheckResults → RunEvent → Result RepositoryError (CheckResults × Db)
create_check_results p read db check_results event = do
  db₁ ← insert_check_results db check_results
  (_, db₂) ← insert_generated_event p read db₁ event
  ok (check_results, db₂)

unfoldable pub get_check_results : Db → ℕ → ℕ → Option CheckResults
get_check_results db run_id version =
    find (λ r. r.run_id == run_id && r.evidence_board_version == version) db.check_results

-- the results of a run with the highest board version
unfoldable pub highest : CheckResults → Option CheckResults → Option CheckResults
highest r none = some r
highest r (some s) =
    if ltb s.evidence_board_version r.evidence_board_version then some r else some s

unfoldable pub latest_of : ℕ → List CheckResults → Option CheckResults
unfolding highest
latest_of run_id [] = none
latest_of run_id (r ∷ rows) =
    let rest = latest_of run_id rows in if r.run_id == run_id then highest r rest else rest

unfoldable pub get_latest_check_results : Db → ℕ → Option CheckResults
unfolding latest_of
get_latest_check_results db run_id = latest_of run_id db.check_results
