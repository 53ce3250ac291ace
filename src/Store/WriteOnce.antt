-- ===== src/Store/WriteOnce.antt =====
-- Frozen boards are written once, and every sequence of writes keeps them.
use aleth_os_tool_passport.Prelude.{
  ℕ, ◌≡◌, refl, inl, inr, subst₂, ◌∙◌, Bool, true, false, ◌&&◌, none, some, List, [], ◌∷◌, arith,
  ◌==◌, if◌then◌else◌, ok, ap, ==→≡, any, find, Bool-cases,
}
use aleth_os_tool_passport.Platform.{Platform}
use aleth_os_tool_passport.Domain.RunEvent.{RunEvent}
use aleth_os_tool_passport.Domain.Board.{EvidenceFreezeResult, FrozenEvidenceBoard}
use aleth_os_tool_passport.Store.{Db, insert}
use aleth_os_tool_passport.Store.Approvals.{claim_attestation_attempt}
use aleth_os_tool_passport.Store.Boards.{manifest_row, create_evidence_freeze, get_evidence_freeze}
use aleth_os_tool_passport.Store.Kept.{
  SameKept, append_event-SameKept, create_run-SameKept, create_passport_freeze-SameKept,
  create_approval-SameKept, create_attestation_receipt-SameKept,
}
use aleth_os_tool_passport.Store.ToolRows.{create_tool-ToolsOnly, add_external_id-ToolsOnly}
use aleth_os_tool_passport.Store.Writes.{
  Write, run_created, event_appended, artifact_created, evidence_created, board_frozen,
  results_created, passport_frozen, approval_created, attempt_claimed, receipt_created,
  tool_created, identifier_added, Writes, unwritten, then_write, WithEvent-SameKept,
  create_artifact-WithEvent, create_evidence-WithEvent, create_check_results-WithEvent, Frozen,
  create_evidence_freeze-Frozen,
}

-- the frozen boards as a map from the run and the version
get_freeze-eq :
    (db db' : Db) (run_id version : ℕ)
    → db'.evidence_boards ≡ db.evidence_boards
    → db'.evidence_manifests ≡ db.evidence_manifests
    → get_evidence_freeze db' run_id version ≡ get_evidence_freeze db run_id version
unfolding get_evidence_freeze
get_freeze-eq db db' run_id version b m = rw (b, m) refl

find-none :
    (test : FrozenEvidenceBoard → Bool) (rows : List FrozenEvidenceBoard)
    → any test rows ≡ false
    → find test rows ≡ none
find-none test [] h = refl
find-none test (b ∷ rows) h = ground (arith, find-none test rows)

-- the rows of a freeze that is added
abbrev added : Db → EvidenceFreezeResult → Db
added db f = record db {
  evidence_boards = f.evidence_board ∷ db.evidence_boards;
  evidence_manifests = manifest_row f ∷ db.evidence_manifests;
}

get_freeze-added :
    (db db' : Db) (f : EvidenceFreezeResult) (run_id version : ℕ)
    → db'.evidence_boards ≡ f.evidence_board ∷ db.evidence_boards
    → db'.evidence_manifests ≡ manifest_row f ∷ db.evidence_manifests
    → get_evidence_freeze db' run_id version ≡ (
        if f.evidence_board.run_id == run_id && f.evidence_board.version == version
        then some f
        else get_evidence_freeze db run_id version)
unfolding get_evidence_freeze
get_freeze-added db db' f run_id version b m =
    elim (Bool-cases (f.evidence_board.run_id == run_id && f.evidence_board.version == version)) [
      | inl same ↦
          rw same (
            get_freeze-eq (added db f) db' run_id version b m ∙ rw (get_evidence_freeze, same) refl)
      | inr other ↦ rw other (
          get_freeze-eq (added db f) db' run_id version b m
          ∙ rw (get_evidence_freeze, other, get_evidence_freeze) refl)
    ]

claim-boards :
    (db db' : Db) (run_id approval_id now : ℕ)
    → claim_attestation_attempt db run_id approval_id now ≡ ok db'
    → (db'.evidence_boards ≡ db.evidence_boards) × (db'.evidence_manifests ≡ db.evidence_manifests)
unfolding claim_attestation_attempt insert
claim-boards db db' run_id approval_id now h = (ground arith, ground arith)

module _ (p : Platform) where
  freeze-SameBoards :
      (db db' : Db) (f : EvidenceFreezeResult)
      → (t : Frozen p db db' f)
      → (db'.evidence_boards ≡ f.evidence_board ∷ db.evidence_boards)
        × (db'.evidence_manifests ≡ manifest_row f ∷ db.evidence_manifests)
  freeze-SameBoards db db' f t =
      let same = WithEvent-SameKept p t.written in
      (ap (λ k. k.1) same ∙ t.boards, ap (λ k. k.2) same ∙ t.manifests)

  -- create_evidence_freeze of the repository implements a map that is written once: if it
  -- succeeds, the query for the key of the board, its run and version, found nothing before; and
  -- the query for any key finds the new freeze afterwards, if it is that key, and what it found
  -- before, otherwise.
  pub create_evidence_freeze-refines :
      (read : Bool) (db db' : Db) (f : EvidenceFreezeResult) (event : RunEvent) (run_id version : ℕ)
      {g : EvidenceFreezeResult}
      → create_evidence_freeze p read db f event ≡ ok (g, db')
      → (get_evidence_freeze db f.evidence_board.run_id f.evidence_board.version ≡ none)
        × (get_evidence_freeze db' run_id version ≡ (
            if f.evidence_board.run_id == run_id && f.evidence_board.version == version
            then some f
            else get_evidence_freeze db run_id version))
  unfolding get_evidence_freeze
  create_evidence_freeze-refines read db db' f event run_id version h =
      let t = create_evidence_freeze-Frozen p read db db' f event h in
      let (b, m) = freeze-SameBoards db db' f t in
      (
        rw
            (
              get_evidence_freeze,
              find-none
                  (λ x.
                    x.run_id == f.evidence_board.run_id && x.version == f.evidence_board.version)
                  db.evidence_boards t.new_board,
            )
            refl,
        get_freeze-added db db' f run_id version b m,
      )

  -- a freeze that can be read
  abbrev IsReadable : Db → ℕ → ℕ → EvidenceFreezeResult → Type 0
  IsReadable db run_id version f = get_evidence_freeze db run_id version ≡ some f

  same-IsReadable :
      (db db' : Db) (run_id version : ℕ) (f : EvidenceFreezeResult)
      → SameKept db db'
      → IsReadable db run_id version f
      → IsReadable db' run_id version f
  same-IsReadable db db' run_id version f same r =
      get_freeze-eq db db' run_id version (ap (λ k. k.1) same) (ap (λ k. k.2) same) ∙ r

  -- a freeze of another key keeps it, and there is none of the same key
  freeze-IsReadable :
      (db db' : Db) (f g : EvidenceFreezeResult) (run_id version : ℕ)
      → Frozen p db db' g
      → IsReadable db run_id version f
      → IsReadable db' run_id version f
  unfolding get_evidence_freeze
  freeze-IsReadable db db' f g run_id version t r =
      let (b, m) = freeze-SameBoards db db' g t in
      let new = get_freeze-added db db' g run_id version b m in
      elim (Bool-cases (g.evidence_board.run_id == run_id && g.evidence_board.version == version)) [
        | inl same ↦
            let free =
              find-none
                (λ x. x.run_id == g.evidence_board.run_id && x.version == g.evidence_board.version)
                db.evidence_boards t.new_board in
            let key : (g.evidence_board.run_id ≡ run_id) × (g.evidence_board.version ≡ version) =
              (==→≡ _ _ (ground arith), ==→≡ _ _ (ground arith)) in
            let free' : find (λ x. x.run_id == run_id && x.version == version) db.evidence_boards
                ≡ none =
              subst₂ (λ i v. find (λ x. x.run_id == i && x.version == v) db.evidence_boards ≡ none)
                key.0 key.1 free in
            let gone : get_evidence_freeze db run_id version ≡ none =
              rw (get_evidence_freeze, free') refl in
            cc
        | inr other ↦ new ∙ rw other r
      ]

  Write-IsReadable :
      {db db' : Db} (run_id version : ℕ) (f : EvidenceFreezeResult)
      → Write p db db'
      → IsReadable db run_id version f
      → IsReadable db' run_id version f
  Write-IsReadable i v f (run_created {db} {db'} run event h) =
      same-IsReadable db db' i v f (create_run-SameKept p true db db' run event h)
  Write-IsReadable i v f (event_appended {db} {db'} read event expected next place h) =
      same-IsReadable db db' i v f (append_event-SameKept p read db db' event expected next place h)
  Write-IsReadable i v f (artifact_created {db} {db'} read x event h) =
      let (t, a) = create_artifact-WithEvent p read db db' x event h in
      same-IsReadable db db' i v f (WithEvent-SameKept p t ∙ a.same)
  Write-IsReadable i v f (evidence_created {db} {db'} read x event h) =
      let (t, a) = create_evidence-WithEvent p read db db' x event h in
      same-IsReadable db db' i v f (WithEvent-SameKept p t ∙ a.same)
  Write-IsReadable i v f (board_frozen {db} {db'} read g event h) =
      freeze-IsReadable db db' f g i v (create_evidence_freeze-Frozen p read db db' g event h)
  Write-IsReadable i v f (results_created {db} {db'} read x event h) =
      let (t, a) = create_check_results-WithEvent p read db db' x event h in
      same-IsReadable db db' i v f (WithEvent-SameKept p t ∙ a.same)
  Write-IsReadable i v f (passport_frozen {db} {db'} read passport provenance event own h) =
      same-IsReadable db db' i v f
        (create_passport_freeze-SameKept p read db db' passport provenance event h)
  Write-IsReadable i v f (approval_created {db} {db'} read approval event expected next h) =
      same-IsReadable db db' i v f
        (create_approval-SameKept p read db db' approval event expected next h)
  Write-IsReadable i v f (attempt_claimed {db} {db'} run_id approval_id now h) = λ r.
      let (b, m) = claim-boards db db' run_id approval_id now h in get_freeze-eq db db' i v b m ∙ r
  Write-IsReadable i v f (receipt_created {db} {db'} read receipt first second expected h) =
      same-IsReadable db db' i v f
        (create_attestation_receipt-SameKept p read db db' receipt first second expected h)
  Write-IsReadable i v f (tool_created {db} {db'} tool h) = λ r.
      let t = create_tool-ToolsOnly db db' tool h in
      get_freeze-eq db db' i v t.boards t.manifests ∙ r
  Write-IsReadable i v f (identifier_added {db} {db'} tool_id x now h) = λ r.
      let t = add_external_id-ToolsOnly db db' tool_id x now h in
      get_freeze-eq db db' i v t.boards t.manifests ∙ r

  -- If the query for the frozen board of a run and a version finds a freeze, then it finds the
  -- same one after any sequence of writes of the repository: new runs, events, artifacts,
  -- evidence, boards, results, Passports, approvals, attempts, receipts, tools and identifiers.
  pub Writes-IsReadable :
      {db db' : Db} (run_id version : ℕ) (f : EvidenceFreezeResult)
      → Writes p db db'
      → get_evidence_freeze db run_id version ≡ some f
      → get_evidence_freeze db' run_id version ≡ some f
  Writes-IsReadable i v f unwritten r = r
  Writes-IsReadable i v f (then_write before w) r =
      Write-IsReadable i v f w (Writes-IsReadable i v f before r)
