-- ===== src/Store/Writes.antt =====
-- Sequences of the writes of backend/src/repository/mod.rs: what they keep.
mod Statements
use aleth_os_tool_passport.Prelude.{
  ℕ, ◌≡◌, sym, ◌∙◌, Bool, false, ◌&&◌, Option, ◌∷◌, arith, ◌==◌, Text, ok, ap, >>=-eq-ok,
  ok_injective, map_err, any,
}
use aleth_os_tool_passport.Platform.{Platform}
use aleth_os_tool_passport.Domain.Run.{Run, RunStatus}
use aleth_os_tool_passport.Domain.RunEvent.{RunEvent}
use aleth_os_tool_passport.Domain.Evidence.{Artifact, Evidence}
use aleth_os_tool_passport.Domain.Board.{EvidenceFreezeResult, FrozenEvidenceBoard}
use aleth_os_tool_passport.Domain.CheckResults.{CheckResults}
use aleth_os_tool_passport.Domain.Passport.{Passport, Provenance, PassportFreezeResult}
use aleth_os_tool_passport.Domain.Approval.{Approval, AttestationReceipt}
use aleth_os_tool_passport.Store.{Db, insert, ManifestRow}
use aleth_os_tool_passport.Store.Events.{create_run, append_event, insert_generated_event}
use aleth_os_tool_passport.Store.Freezes.{create_passport_freeze}
use aleth_os_tool_passport.Store.Approvals.{
  create_approval, create_attestation_receipt, claim_attestation_attempt,
}
use aleth_os_tool_passport.Store.Records.{
  insert_artifact, create_artifact, insert_evidence, create_evidence,
}
use aleth_os_tool_passport.Store.Boards.{
  insert_board, insert_manifest, manifest_row, create_evidence_freeze, insert_check_results,
  create_check_results,
}
use aleth_os_tool_passport.Domain.Tool.{ExternalIdentifier, Tool}
use aleth_os_tool_passport.Store.Tools.{create_tool, add_external_id}
use aleth_os_tool_passport.Store.Kept.{kept, SameKept, insert_generated_event-SameKept}
use aleth_os_tool_passport.Store.Logged.{IsLogged, insert_generated_event-IsLogged}
use aleth_os_tool_passport.Store.Writes.Statements.{
  Aside, insert_artifact-Aside, insert_evidence-Aside, insert_check_results-Aside,
  insert_board-adds, insert_manifest-adds,
}

module _ (p : Platform) where
  -- a write of any operation of the repository
  pub data Write : Db → Db → Type 0 where
    run_created :
        {db db' : Db} {r : Run} (run : Run) (event : RunEvent)
        → create_run p db run event ≡ ok (r, db')
        → Write db db'
    event_appended :
        {db db' : Db} {e : RunEvent} (read : Bool) (event : RunEvent) (expected : RunStatus)
        (next : Option RunStatus) (place : Option Text)
        → append_event p read db event expected next place ≡ ok (e, db')
        → Write db db'
    artifact_created :
        {db db' : Db} {a : Artifact} (read : Bool) (artifact : Artifact) (event : RunEvent)
        → create_artifact p read db artifact event ≡ ok (a, db')
        → Write db db'
    evidence_created :
        {db db' : Db} {a : Evidence} (read : Bool) (evidence : Evidence) (event : RunEvent)
        → create_evidence p read db evidence event ≡ ok (a, db')
        → Write db db'
    board_frozen :
        {db db' : Db} {f : EvidenceFreezeResult} (read : Bool) (freeze : EvidenceFreezeResult)
        (event : RunEvent)
        → create_evidence_freeze p read db freeze event ≡ ok (f, db')
        → Write db db'
    results_created :
        {db db' : Db} {r : CheckResults} (read : Bool) (results : CheckResults) (event : RunEvent)
        → create_check_results p read db results event ≡ ok (r, db')
        → Write db db'
    passport_frozen :
        {db db' : Db} {r : PassportFreezeResult} (read : Bool) (passport : Passport)
        (provenance : Provenance) (event : RunEvent)
        → event.run_id ≡ passport.run_id
        → create_passport_freeze p read db passport provenance event ≡ ok (r, db')
        → Write db db'
    approval_created :
        {db db' : Db} {a : Approval} (read : Bool) (approval : Approval) (event : RunEvent)
        (expected next : RunStatus)
        → create_approval p read db approval event expected next ≡ ok (a, db')
        → Write db db'
    attempt_claimed :
        {db db' : Db} (run_id approval_id now : ℕ)
        → claim_attestation_attempt db run_id approval_id now ≡ ok db'
        → Write db db'
    receipt_created :
        {db db' : Db} {r : AttestationReceipt} (read : Bool) (receipt : AttestationReceipt)
        (first second : RunEvent) (expected : RunStatus)
        → create_attestation_receipt p read db receipt first second expected ≡ ok (r, db')
        → Write db db'
    tool_created :
        {db db' : Db} {t : Tool} (tool : Tool) → create_tool db tool ≡ ok (t, db') → Write db db'
    identifier_added :
        {db db' : Db} {t : Tool} (tool_id : Text) (identifier : ExternalIdentifier) (now : ℕ)
        → add_external_id db tool_id identifier now ≡ ok (t, db')
        → Write db db'

  pub data Writes : Db → Db → Type 0 where
    unwritten : {db : Db} → Writes db db
    then_write : {db mid db' : Db} → Writes db mid → Write mid db' → Writes db db'

  -- a row of its own, and then the event
  pub record WithEvent (db db' : Db) : Type 0 where
    pub mid : Db
    pub last : Db
    pub read : Bool
    pub event : RunEvent
    pub hash : Text
    pub logged : insert_generated_event p read mid event ≡ ok (hash, last)
    pub out : db' ≡ last

  pub WithEvent-IsLogged :
      {db db' : Db} (t : WithEvent db db')
      → t.mid.run_events ≡ db.run_events
      → IsLogged p db.run_events
      → IsLogged p db'.run_events
  WithEvent-IsLogged t same c =
      rw t.out (insert_generated_event-IsLogged p t.read t.mid t.last t.event t.logged (rw same c))

  pub WithEvent-SameKept : {db db' : Db} (t : WithEvent db db') → kept db' ≡ kept t.mid
  WithEvent-SameKept t =
      ap kept t.out ∙ insert_generated_event-SameKept p t.read t.mid t.last t.event t.logged

  pub create_artifact-WithEvent :
      (read : Bool) (db db' : Db) (x : Artifact) (event : RunEvent) {a : Artifact}
      → create_artifact p read db x event ≡ ok (a, db')
      → (t : WithEvent db db') × Aside db t.mid
  unfolding create_artifact
  create_artifact-WithEvent read db db' x event h =
      let (db₁, added, h₁) = >>=-eq-ok (insert_artifact db x) _ h in
      let ((hash, db₂), logged, h₂) = >>=-eq-ok (insert_generated_event p read db₁ event) _ h₁ in
      (
        record {
          mid = db₁;
          last = db₂;
          read = read;
          event = event;
          hash = hash;
          logged = logged;
          out = sym (ap (λ t. t.1) (ok_injective h₂));
        },
        insert_artifact-Aside db db₁ x added,
      )

  pub create_evidence-WithEvent :
      (read : Bool) (db db' : Db) (x : Evidence) (event : RunEvent) {a : Evidence}
      → create_evidence p read db x event ≡ ok (a, db')
      → (t : WithEvent db db') × Aside db t.mid
  unfolding create_evidence
  create_evidence-WithEvent read db db' x event h =
      let (db₁, added, h₁) = >>=-eq-ok (insert_evidence db x) _ h in
      let ((hash, db₂), logged, h₂) = >>=-eq-ok (insert_generated_event p read db₁ event) _ h₁ in
      (
        record {
          mid = db₁;
          last = db₂;
          read = read;
          event = event;
          hash = hash;
          logged = logged;
          out = sym (ap (λ t. t.1) (ok_injective h₂));
        },
        insert_evidence-Aside db db₁ x added,
      )

  pub create_check_results-WithEvent :
      (read : Bool) (db db' : Db) (x : CheckResults) (event : RunEvent) {a : CheckResults}
      → create_check_results p read db x event ≡ ok (a, db')
      → (t : WithEvent db db') × Aside db t.mid
  unfolding create_check_results
  create_check_results-WithEvent read db db' x event h =
      let (db₁, added, h₁) = >>=-eq-ok (insert_check_results db x) _ h in
      let ((hash, db₂), logged, h₂) = >>=-eq-ok (insert_generated_event p read db₁ event) _ h₁ in
      (
        record {
          mid = db₁;
          last = db₂;
          read = read;
          event = event;
          hash = hash;
          logged = logged;
          out = sym (ap (λ t. t.1) (ok_injective h₂));
        },
        insert_check_results-Aside db db₁ x added,
      )

  -- what the two INSERTs of a freeze do
  pub record Frozen (db db' : Db) (f : EvidenceFreezeResult) : Type 0 where
    pub written : WithEvent db db'
    pub events : written.mid.run_events ≡ db.run_events
    pub boards : written.mid.evidence_boards ≡ f.evidence_board ∷ db.evidence_boards
    pub manifests : written.mid.evidence_manifests ≡ manifest_row f ∷ db.evidence_manifests
    pub identifiers : written.mid.tool_external_ids ≡ db.tool_external_ids
    pub new_board :
        any
          (λ b. b.run_id == f.evidence_board.run_id && b.version == f.evidence_board.version)
          db.evidence_boards
        ≡ false

  pub create_evidence_freeze-Frozen :
      (read : Bool) (db db' : Db) (f : EvidenceFreezeResult) (event : RunEvent)
      {g : EvidenceFreezeResult}
      → create_evidence_freeze p read db f event ≡ ok (g, db')
      → Frozen db db' f
  unfolding create_evidence_freeze
  create_evidence_freeze-Frozen read db db' f event h =
      let (db₁, board, h₁) = >>=-eq-ok (insert_board db f.evidence_board) _ h in
      let (db₂, manifest, h₂) = >>=-eq-ok (insert_manifest db₁ (manifest_row f)) _ h₁ in
      let ((hash, db₃), logged, h₃) = >>=-eq-ok (insert_generated_event p read db₂ event) _ h₂ in
      let (b₁, b₂, b₃, b₅, b₄) = insert_board-adds db db₁ f.evidence_board board in
      let (m₁, m₂, m₃, m₄) = insert_manifest-adds db₁ db₂ (manifest_row f) manifest in
      record {
        written = record {
          mid = db₂;
          last = db₃;
          read = read;
          event = event;
          hash = hash;
          logged = logged;
          out = sym (ap (λ t. t.1) (ok_injective h₃));
        };
        events = m₁ ∙ b₁;
        boards = m₂ ∙ b₂;
        manifests = m₃ ∙ ap (λ xs. manifest_row f ∷ xs) b₃;
        identifiers = m₄ ∙ b₅;
        new_board = b₄;
      }
