-- ===== src/Store/Kept.antt =====
-- Which statements leave attempts, frozen boards and identifiers alone, and what a claim adds.
use aleth_os_tool_passport.Prelude.{
  ℕ, ◌≡◌, subst, List, ◌∙◌, Bool, false, ◌||◌, Option, some, ◌∷◌, arith, ◌==◌, Text, codes, ok,
  >>=-eq-ok, any,
}
use aleth_os_tool_passport.Platform.{Platform}
use aleth_os_tool_passport.Domain.Run.{Run, RunStatus, success}
use aleth_os_tool_passport.Domain.RunEvent.{RunEvent, zero_hash}
use aleth_os_tool_passport.Domain.Passport.{Passport, Provenance, PassportFreezeResult}
use aleth_os_tool_passport.Domain.Approval.{Approval, AttestationReceipt}
use aleth_os_tool_passport.Domain.Board.{FrozenEvidenceBoard}
use aleth_os_tool_passport.Store.{
  Db, insert, ProvenanceRow, AttemptRow, ManifestRow, ToolExternalIdRow,
}
use aleth_os_tool_passport.Store.Events.{
  transition, insert_run, insert_event_row, insert_linked, linked, next_sequence_and_prev_hash,
  insert_generated_event, create_run, append_event,
}
use aleth_os_tool_passport.Store.Freezes.{
  insert_passport, insert_provenance, create_passport_freeze, stamped,
}
use aleth_os_tool_passport.Store.Approvals.{
  insert_approval, create_approval, insert_receipt, create_attestation_receipt,
  claim_attestation_attempt, settled_at,
}

-- the tables of a state that only their own INSERTs change
abbrev pub kept :
    Db → List AttemptRow × List FrozenEvidenceBoard × List ManifestRow × List ToolExternalIdRow
kept db = (db.attestation_attempts, db.evidence_boards, db.evidence_manifests, db.tool_external_ids)

abbrev pub SameKept : Db → Db → Type 0
SameKept db db' = kept db' ≡ kept db

transition-SameKept :
    (db db' : Db) (id : ℕ) (expected : RunStatus) (next : Option RunStatus) (place : Option Text)
    (now : ℕ)
    → transition db id expected next place now ≡ ok db'
    → SameKept db db'
unfolding transition
transition-SameKept db db' id expected next place now h = ground arith

insert_run-SameKept : (db db' : Db) (run : Run) → insert_run db run ≡ ok db' → SameKept db db'
unfolding insert_run insert
insert_run-SameKept db db' run h = ground arith

insert_event_row-SameKept :
    (db db' : Db) (row : RunEvent) → insert_event_row db row ≡ ok db' → SameKept db db'
unfolding insert_event_row insert
insert_event_row-SameKept db db' row h = ground arith

insert_passport-SameKept :
    (db db' : Db) (x : Passport) → insert_passport db x ≡ ok db' → SameKept db db'
unfolding insert_passport insert
insert_passport-SameKept db db' x h = ground arith

insert_provenance-SameKept :
    (db db' : Db) (x : ProvenanceRow) → insert_provenance db x ≡ ok db' → SameKept db db'
unfolding insert_provenance insert
insert_provenance-SameKept db db' x h = ground arith

insert_approval-SameKept :
    (db db' : Db) (x : Approval) → insert_approval db x ≡ ok db' → SameKept db db'
unfolding insert_approval insert
insert_approval-SameKept db db' x h = ground arith

insert_receipt-SameKept :
    (db db' : Db) (x : AttestationReceipt) → insert_receipt db x ≡ ok db' → SameKept db db'
unfolding insert_receipt insert
insert_receipt-SameKept db db' x h = ground arith

module _ (p : Platform) (read : Bool) where
  insert_linked-SameKept :
      (db db' : Db) (event : RunEvent) {row : RunEvent}
      → insert_linked p read db event ≡ ok (row, db')
      → SameKept db db'
  unfolding insert_linked
  insert_linked-SameKept db db' event h =
      let place = next_sequence_and_prev_hash read db.run_events event.run_id in
      let (mid, inserted, rest) =
        >>=-eq-ok (insert_event_row db (linked p place.0 place.1 event)) _ h in
      let same : mid ≡ db' = cc in
      subst (SameKept db) same
        (insert_event_row-SameKept db mid (linked p place.0 place.1 event) inserted)

  pub insert_generated_event-SameKept :
      (db db' : Db) (event : RunEvent) {hash : Text}
      → insert_generated_event p read db event ≡ ok (hash, db')
      → SameKept db db'
  unfolding insert_generated_event
  insert_generated_event-SameKept db db' event h =
      let ((row, mid), inserted, rest) = >>=-eq-ok (insert_linked p read db event) _ h in
      let same : kept db' ≡ kept mid = cc in same ∙ insert_linked-SameKept db mid event inserted

  pub append_event-SameKept :
      (db db' : Db) (event : RunEvent) (expected : RunStatus) (next : Option RunStatus)
      (place : Option Text) {e : RunEvent}
      → append_event p read db event expected next place ≡ ok (e, db')
      → SameKept db db'
  unfolding append_event
  append_event-SameKept db db' event expected next place h =
      let (mid, moved, inserted) =
        >>=-eq-ok (transition db event.run_id expected next place event.created_at) _ h in
      insert_linked-SameKept mid db' event inserted
      ∙ transition-SameKept db mid event.run_id expected next place event.created_at moved

  pub create_run-SameKept :
      (db db' : Db) (run : Run) (event : RunEvent) {r : Run}
      → create_run p db run event ≡ ok (r, db')
      → SameKept db db'
  unfolding create_run
  create_run-SameKept db db' run event h =
      let first = record event { run_id = run.run_id } in
      let (mid, added, h₁) = >>=-eq-ok (insert_run db run) _ h in
      let (last, inserted, rest) =
        >>=-eq-ok (insert_event_row mid (linked p 1 zero_hash first)) _ h₁ in
      let same : kept db' ≡ kept last = cc in
      same
      ∙ insert_event_row-SameKept mid last (linked p 1 zero_hash first) inserted
      ∙ insert_run-SameKept db mid run added

  pub create_passport_freeze-SameKept :
      (db db' : Db) (passport : Passport) (provenance : Provenance) (event : RunEvent)
      {r : PassportFreezeResult}
      → create_passport_freeze p read db passport provenance event ≡ ok (r, db')
      → SameKept db db'
  unfolding create_passport_freeze
  create_passport_freeze-SameKept db db' passport provenance event h =
      let ((hash, db₁), logged, h₁) = >>=-eq-ok (insert_generated_event p read db event) _ h in
      let (db₂, added, h₂) = >>=-eq-ok (insert_passport db₁ passport) _ h₁ in
      let (db₃, stamped_row, h₃) =
        >>=-eq-ok (insert_provenance db₂ (stamped passport provenance hash)) _ h₂ in
      let same : kept db' ≡ kept db₃ = cc in
      same
      ∙ insert_provenance-SameKept db₂ db₃ (stamped passport provenance hash) stamped_row
      ∙ insert_passport-SameKept db₁ db₂ passport added
      ∙ insert_generated_event-SameKept db db₁ event logged

  pub create_approval-SameKept :
      (db db' : Db) (approval : Approval) (event : RunEvent) (expected next : RunStatus)
      {a : Approval}
      → create_approval p read db approval event expected next ≡ ok (a, db')
      → SameKept db db'
  unfolding create_approval
  create_approval-SameKept db db' approval event expected next h =
      let (db₁, moved, h₁) =
        >>=-eq-ok
          (transition db approval.run_id expected (some next) (some (codes "human_review_gate"))
            approval.decided_at)
          _ h in
      let (db₂, added, h₂) = >>=-eq-ok (insert_approval db₁ approval) _ h₁ in
      let ((hash, db₃), logged, h₃) = >>=-eq-ok (insert_generated_event p read db₂ event) _ h₂ in
      let same : kept db' ≡ kept db₃ = cc in
      same
      ∙ insert_generated_event-SameKept db₂ db₃ event logged
      ∙ insert_approval-SameKept db₁ db₂ approval added
      ∙ transition-SameKept db db₁ approval.run_id expected (some next)
          (some (codes "human_review_gate")) approval.decided_at moved

  pub create_attestation_receipt-SameKept :
      (db db' : Db) (receipt : AttestationReceipt) (first second : RunEvent) (expected : RunStatus)
      {r : AttestationReceipt}
      → create_attestation_receipt p read db receipt first second expected ≡ ok (r, db')
      → SameKept db db'
  unfolding create_attestation_receipt
  create_attestation_receipt-SameKept db db' receipt first second expected h =
      let (db₁, moved, h₁) =
        >>=-eq-ok
          (transition db receipt.run_id expected (some success) (some (codes "attest_onchain"))
            (settled_at receipt))
          _ h in
      let (db₂, added, h₂) = >>=-eq-ok (insert_receipt db₁ receipt) _ h₁ in
      let ((hash, db₃), logged, h₃) = >>=-eq-ok (insert_generated_event p read db₂ first) _ h₂ in
      let ((hash', db₄), logged', h₄) = >>=-eq-ok (insert_generated_event p read db₃ second) _ h₃ in
      let same : kept db' ≡ kept db₄ = cc in
      same
      ∙ insert_generated_event-SameKept db₃ db₄ second logged'
      ∙ insert_generated_event-SameKept db₂ db₃ first logged
      ∙ insert_receipt-SameKept db₁ db₂ receipt added
      ∙ transition-SameKept db db₁ receipt.run_id expected (some success)
          (some (codes "attest_onchain")) (settled_at receipt) moved

-- A claim is a new row, and there was none for its run.
pub claim_attestation_attempt-adds :
    (db db' : Db) (run_id approval_id now : ℕ)
    → claim_attestation_attempt db run_id approval_id now ≡ ok db'
    → (db'.attestation_attempts
        ≡ record { run_id = run_id; approval_id = approval_id; claimed_at = now }
          ∷ db.attestation_attempts)
      × (any (λ a. a.run_id == run_id || a.approval_id == approval_id) db.attestation_attempts
          ≡ false)
unfolding claim_attestation_attempt insert
claim_attestation_attempt-adds db db' run_id approval_id now h = (ground arith, ground arith)
