-- ===== src/Store/Writes/Statements.antt =====
-- What single INSERTs leave alone, and what those of a board add.
use aleth_os_tool_passport.Prelude.{
  ◌≡◌, sym, false, ◌&&◌, ◌∷◌, arith, ◌==◌, ok, ap, >>=-eq-ok, ok_injective, map_err, any,
}
use aleth_os_tool_passport.Domain.Evidence.{Artifact, Evidence}
use aleth_os_tool_passport.Domain.Board.{FrozenEvidenceBoard}
use aleth_os_tool_passport.Domain.CheckResults.{CheckResults}
use aleth_os_tool_passport.Store.{Db, insert, ManifestRow}
use aleth_os_tool_passport.Store.Records.{insert_artifact, insert_evidence}
use aleth_os_tool_passport.Store.Boards.{insert_board, insert_manifest, insert_check_results}
use aleth_os_tool_passport.Store.Kept.{kept, SameKept}

-- a statement that writes neither events nor boards nor attempts
pub record Aside (db db' : Db) : Type 0 where
  pub events : db'.run_events ≡ db.run_events
  pub same : SameKept db db'

pub insert_artifact-Aside :
    (db db' : Db) (x : Artifact) → insert_artifact db x ≡ ok db' → Aside db db'
unfolding insert_artifact
insert_artifact-Aside db db' x h =
    let (rows, _, h₁) = >>=-eq-ok (map_err _ (insert _ _ _ x db.artifacts)) _ h in
    let out = sym (ok_injective h₁) in
    record { events = ap (λ d. d.run_events) out; same = ap kept out }

pub insert_evidence-Aside :
    (db db' : Db) (x : Evidence) → insert_evidence db x ≡ ok db' → Aside db db'
unfolding insert_evidence
insert_evidence-Aside db db' x h =
    let (rows, _, h₁) = >>=-eq-ok (map_err _ (insert _ _ _ x db.evidence)) _ h in
    let out = sym (ok_injective h₁) in
    record { events = ap (λ d. d.run_events) out; same = ap kept out }

pub insert_check_results-Aside :
    (db db' : Db) (x : CheckResults) → insert_check_results db x ≡ ok db' → Aside db db'
unfolding insert_check_results
insert_check_results-Aside db db' x h =
    let (rows, _, h₁) = >>=-eq-ok (map_err _ (insert _ _ _ x db.check_results)) _ h in
    let out = sym (ok_injective h₁) in
    record { events = ap (λ d. d.run_events) out; same = ap kept out }

pub insert_board-adds :
    (db db' : Db) (b : FrozenEvidenceBoard)
    → insert_board db b ≡ ok db'
    → (db'.run_events ≡ db.run_events)
      × (db'.evidence_boards ≡ b ∷ db.evidence_boards)
      × (db'.evidence_manifests ≡ db.evidence_manifests)
      × (db'.tool_external_ids ≡ db.tool_external_ids)
      × (any (λ x. x.run_id == b.run_id && x.version == b.version) db.evidence_boards ≡ false)
unfolding insert_board insert
insert_board-adds db db' b h =
    (ground arith, ground arith, ground arith, ground arith, ground arith)

pub insert_manifest-adds :
    (db db' : Db) (m : ManifestRow)
    → insert_manifest db m ≡ ok db'
    → (db'.run_events ≡ db.run_events)
      × (db'.evidence_boards ≡ db.evidence_boards)
      × (db'.evidence_manifests ≡ m ∷ db.evidence_manifests)
      × (db'.tool_external_ids ≡ db.tool_external_ids)
unfolding insert_manifest insert
insert_manifest-adds db db' m h = (ground arith, ground arith, ground arith, ground arith)
