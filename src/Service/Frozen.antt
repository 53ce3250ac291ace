-- ===== src/Service/Frozen.antt =====
-- What a frozen Evidence Board contains.
mod Claims
mod Stored
use aleth_os_tool_passport.Prelude.{
  ℕ, ◌≡◌, refl, inl, inr, subst, subst₂, has, sym, ◌∙◌, Bool, true, not, ◌&&◌, some, List, [], ◌∷◌,
  map, arith, ◌==◌, Text, codes, ◌=ₜ◌, =ₜ_refl, trim, ok, ap, ==→≡, >>=-eq-ok, ok_or-ok,
  ok_injective, map_err-ok, refuse, ok_or, map_err, All, any, refuse-ok, Distinct, sort_on,
  IsSortedOn, sort_on-IsSortedOn, any-sort_on, sort_on-Distinct, find_last, find-true, keep,
  Bool-cases, Option-cases,
}
use mathlib.Core.Path.{ap₂}
use aleth_os_tool_passport.Platform.{Platform}
use aleth_os_tool_passport.Domain.Run.{Run}
use aleth_os_tool_passport.Domain.RunEvent.{RunEvent}
use aleth_os_tool_passport.Domain.Evidence.{Artifact, Evidence}
use aleth_os_tool_passport.Domain.Board.{
  EvidenceBoardClaim, EvidenceBoardGap, FreezeEvidenceBoardRequest, EvidenceManifestEntry,
  EvidenceFreezeResult,
}
use aleth_os_tool_passport.Store.{Db}
use aleth_os_tool_passport.Store.Events.{get_run, insert_generated_event}
use aleth_os_tool_passport.Store.Records.{list_artifacts, list_evidence}
use aleth_os_tool_passport.Store.Boards
use aleth_os_tool_passport.Store.WriteOnce.{create_evidence_freeze-refines}
use aleth_os_tool_passport.Scoring.Catalog.{audit_binding_check_ids}
use aleth_os_tool_passport.Service.{World, parse_run_id}
use aleth_os_tool_passport.Service.Requests.{validate_non_empty}
use aleth_os_tool_passport.Service.References.{
  validate_check_id, ensure_unique_uuids, normalize_evidence_references, IsClosed,
  ensure_unique_uuids-Distinct, normalize_evidence_references-IsClosed,
}
use aleth_os_tool_passport.Service.Named.{
  each_named, IsListed, SameNames, each_named-IsListed, each_named-SameNames,
}
use aleth_os_tool_passport.Service.Board.{
  Fresh, validate_freeze_header, is_confidence, duplicated_claim, duplicated_gap,
  normalize_resolution, normalize_gap, normalize_claim, evidence_of_board, snapshot_hash,
  manifest_entries, freeze_of, frozen_event, freeze_error, prepare_freeze, freeze_evidence_board,
}
use aleth_os_tool_passport.Store.Runs.{get_run-id}
use aleth_os_tool_passport.Service.Frozen.Claims.{
  IsKnown, IsClaim, normalize_claim-IsClaim, normalize_gap-IsKnown,
}
use aleth_os_tool_passport.Service.Frozen.Stored.{
  IsStored, evidence_of_board-IsStored, manifest_entries-IsStored,
}

module _ (p : Platform) where
  -- What a board must satisfy when it is frozen: the run, the version and the evidence that were
  -- asked for, and the profile of the run; evidence that is stored, none of it twice, in the
  -- order of the IDs; claims and gaps that are listed; and a manifest with one entry for each piece
  -- of evidence, with the hash that is stored.
  pub record IsFrozen (db : Db) (run : Run) (request : FreezeEvidenceBoardRequest)
      (f : EvidenceFreezeResult) : Type 0 where
    pub own_run : (f.evidence_board.run_id ≡ run.run_id) × (f.evidence_manifest.run_id ≡ run.run_id)
    pub version :
        (f.evidence_board.version ≡ request.version)
        × (f.evidence_manifest.evidence_board_version ≡ request.version)
    pub standard :
        (f.evidence_board.standard_id ≡ run.audit_binding.standard_id)
        × (f.evidence_board.standard_version ≡ run.audit_binding.standard_version)
    pub profile :
        (f.evidence_board.profile_id ≡ run.audit_binding.profile_id)
        × (f.evidence_board.profile_version ≡ run.audit_binding.profile_version)
    pub requested : (id : ℕ) → has f.evidence_board.evidence_ids id ≡ has request.evidence_ids id
    pub check_ids : List Text
    pub bound : audit_binding_check_ids run.audit_binding ≡ ok check_ids
    pub distinct : Distinct f.evidence_board.evidence_ids
    pub sorted : IsSortedOn p.uuid_text f.evidence_board.evidence_ids
    pub claims :
        IsListed
          (λ c. c.claim_id)
          (IsClaim p check_ids f.evidence_board.evidence_ids)
          f.evidence_board.claims
    pub claimed : SameNames (λ c. c.claim_id) f.evidence_board.claims request.claims
    pub opened : SameNames (λ g. g.gap_id) f.evidence_board.gaps request.gaps
    pub gaps : IsListed (λ g. g.gap_id) (λ g. IsKnown check_ids g.check_id) f.evidence_board.gaps
    pub manifest :
        map (λ m. m.evidence_id) f.evidence_manifest.entries ≡ f.evidence_board.evidence_ids
    pub hashes :
        All (λ m. IsStored db run.run_id m.evidence_id m.content_hash) f.evidence_manifest.entries

  prepare_freeze-IsFrozen :
      (fresh : Fresh) (db : Db) (run : Run) (request : FreezeEvidenceBoardRequest)
      (f : EvidenceFreezeResult)
      → prepare_freeze p fresh db run request ≡ ok f
      → IsFrozen db run request f
  unfolding prepare_freeze freeze_of
  prepare_freeze-IsFrozen fresh db run request f h =
      let (check_ids, bound, h₁) =
        >>=-eq-ok (map_err _ (audit_binding_check_ids run.audit_binding)) _ h in
      let (_, unique, h₂) =
        >>=-eq-ok (ensure_unique_uuids p (codes "evidence_ids") request.evidence_ids) _ h₁ in
      let ids = sort_on p.uuid_text request.evidence_ids in
      let (es, known, h₃) =
        >>=-eq-ok (evidence_of_board p (list_evidence p db run.run_id) ids) _ h₂ in
      let (cs, claimed, h₄) =
        >>=-eq-ok
          (each_named (λ c. c.claim_id) "claim_id" duplicated_claim
            (normalize_claim p check_ids ids) [] request.claims)
          _ h₃ in
      let (gs, open_ones, h₅) =
        >>=-eq-ok
          (each_named (λ g. g.gap_id) "gap_id" duplicated_gap (normalize_gap check_ids) []
            request.gaps)
          _ h₄ in
      let (entries, made, h₆) =
        >>=-eq-ok (manifest_entries p (list_artifacts p db run.run_id) es) _ h₅ in
      let (listed, stored) = evidence_of_board-IsStored p db run.run_id ids es known in
      let (named, hashed) =
        manifest_entries-IsStored p db run.run_id (list_artifacts p db run.run_id) es entries stored
          made in
      subst (IsFrozen db run request) (ok_injective h₆) (record {
        own_run = (refl, refl);
        version = (refl, refl);
        standard = (refl, refl);
        profile = (refl, refl);
        requested = λ id. any-sort_on p.uuid_text (λ x. x == id) request.evidence_ids;
        check_ids = check_ids;
        bound = map_err-ok _ _ bound;
        distinct =
            sort_on-Distinct p.uuid_text request.evidence_ids
              (ensure_unique_uuids-Distinct p _ request.evidence_ids unique);
        sorted = sort_on-IsSortedOn p.uuid_text request.evidence_ids;
        claims =
            each_named-IsListed (λ c. c.claim_id) "claim_id" duplicated_claim
              (normalize_claim p check_ids ids) (IsClaim p check_ids ids)
              (normalize_claim-IsClaim p check_ids ids) request.claims cs claimed;
        claimed =
            each_named-SameNames (λ c. c.claim_id) "claim_id" duplicated_claim
              (normalize_claim p check_ids ids)
              (λ c d e. (normalize_claim-IsClaim p check_ids ids c d e).0) request.claims cs
              claimed;
        opened =
            each_named-SameNames (λ g. g.gap_id) "gap_id" duplicated_gap (normalize_gap check_ids)
              (λ g k e. (normalize_gap-IsKnown p check_ids g k e).0) request.gaps gs open_ones;
        gaps =
            each_named-IsListed (λ g. g.gap_id) "gap_id" duplicated_gap (normalize_gap check_ids)
              (λ g. IsKnown check_ids g.check_id) (normalize_gap-IsKnown p check_ids) request.gaps
              gs open_ones;
        manifest = named ∙ listed;
        hashes = hashed;
      })

  create_evidence_freeze-same :
      (read : Bool) (db db' : Db) (freeze f : EvidenceFreezeResult) (event : RunEvent)
      → Boards.create_evidence_freeze p read db freeze event ≡ ok (f, db')
      → freeze ≡ f
  unfolding Boards.create_evidence_freeze
  create_evidence_freeze-same read db db' freeze f event h =
      let (db₁, _, h₁) = >>=-eq-ok (Boards.insert_board db freeze.evidence_board) _ h in
      let (db₂, _, h₂) = >>=-eq-ok (Boards.insert_manifest db₁ (Boards.manifest_row freeze)) _ h₁ in
      let ((_, db₃), _, h₃) = >>=-eq-ok (insert_generated_event p read db₂ event) _ h₂ in
      ap (λ t. t.0) (ok_injective h₃)

  create_evidence_freeze-found :
      (read : Bool) (db db' : Db) (freeze : EvidenceFreezeResult) (event : RunEvent)
      {f : EvidenceFreezeResult}
      → Boards.create_evidence_freeze p read db freeze event ≡ ok (f, db')
      → Boards.get_evidence_freeze db' freeze.evidence_board.run_id freeze.evidence_board.version
        ≡ some freeze
  create_evidence_freeze-found read db db' freeze event h =
      let board = freeze.evidence_board in
      let new =
        (create_evidence_freeze-refines p read db db' freeze event board.run_id board.version
          h).1 in
      let same : (board.run_id == board.run_id && board.version == board.version) ≡ true =
        ground arith in
      new ∙ rw same refl

  -- If freeze_evidence_board of the service succeeds, then the text of the request is the UUID of
  -- the run of the board, this run is found in the database before, and the query for the run and
  -- the version of the board finds the freeze afterwards. The board and the manifest have this run
  -- ID and the version of the request, and the board has the standard and the profile of the run;
  -- its evidence IDs are those of the request, distinct and in the order of their texts; its
  -- claims and gaps have the IDs of those of the request, stable, none twice, in the order of the
  -- IDs, and name checks of the bound profile; a claim has a confidence from 0 to 1 and refers to
  -- evidence of the board only, none twice, in order; and the manifest has one entry for each
  -- evidence ID of the board, in the same order, whose content hash is that of a stored piece of
  -- evidence of the run with this ID.
  pub freeze_evidence_board-IsFrozen :
      (read : Bool) (fresh : Fresh) (run_id : Text) (request : FreezeEvidenceBoardRequest)
      (w w' : World) (f : EvidenceFreezeResult)
      → freeze_evidence_board p read fresh run_id request w ≡ ok (f, w')
      → (run : Run) × (parse_run_id p run_id ≡ ok f.evidence_board.run_id)
        × (get_run w.db f.evidence_board.run_id ≡ some run)
        × IsFrozen w.db run request f
        × (Boards.get_evidence_freeze w'.db f.evidence_board.run_id f.evidence_board.version
            ≡ some f)
  unfolding freeze_evidence_board
  freeze_evidence_board-IsFrozen read fresh run_id request w w' f h =
      let (id, parsed, h₁) = >>=-eq-ok (parse_run_id p run_id) _ h in
      let (run, found, h₂) = >>=-eq-ok (ok_or _ (get_run w.db id)) _ h₁ in
      let (_, headed, h₃) = >>=-eq-ok (validate_freeze_header request) _ h₂ in
      let (freeze, prepared, h₄) = >>=-eq-ok (prepare_freeze p fresh w.db run request) _ h₃ in
      let ((f', db), made, h₅) =
        >>=-eq-ok
          (map_err freeze_error
            (Boards.create_evidence_freeze p read w.db freeze (frozen_event fresh freeze)))
          _ h₄ in
      let same =
        create_evidence_freeze-same read w.db db freeze f' (frozen_event fresh freeze)
          (map_err-ok freeze_error _ made) in
      let found' = ok_or-ok _ _ found in
      let c =
        subst (IsFrozen w.db run request) (same ∙ ap (λ t. t.0) (ok_injective h₅))
          (prepare_freeze-IsFrozen fresh w.db run request freeze prepared) in
      let own : id ≡ f.evidence_board.run_id =
        sym (get_run-id w.db id run found') ∙ sym c.own_run.0 in
      let kept =
        create_evidence_freeze-found read w.db db freeze (frozen_event fresh freeze)
          (map_err-ok freeze_error _ made) in
      (
        run,
        parsed ∙ ap ok own,
        subst (λ i. get_run w.db i ≡ some run) own found',
        c,
        subst₂
            (λ d y.
              Boards.get_evidence_freeze d y.evidence_board.run_id y.evidence_board.version
              ≡ some y)
            (ap (λ t. t.1.db) (ok_injective h₅)) (same ∙ ap (λ t. t.0) (ok_injective h₅)) kept,
      )
