-- ===== src/Store/Decisions.antt =====
-- The chains after freezes, approvals and receipts, and the hash that a freeze commits to.
use aleth_os_tool_passport.Prelude.{
  subst₂, ℕ, ◌≡◌, sym, ◌∙◌, Bool, some, List, ◌∷◌, arith, Text, codes, ok, ap, >>=-eq-ok,
  ok_injective, ◌>>=◌,
}
use aleth_os_tool_passport.Platform.{Platform}
use aleth_os_tool_passport.Domain.Run.{RunStatus, success}
use aleth_os_tool_passport.Domain.RunEvent.{RunEvent}
use aleth_os_tool_passport.Domain.Passport.{Passport, Provenance, PassportFreezeResult}
use aleth_os_tool_passport.Domain.Approval.{Approval, AttestationReceipt}
use aleth_os_tool_passport.Store.{Db, insert, ProvenanceRow}
use aleth_os_tool_passport.Store.Events.{
  transition, linked, next_sequence_and_prev_hash, insert_event_row, insert_linked,
  insert_generated_event,
}
use aleth_os_tool_passport.Store.Chain.{events_of, last_hash, insert_event_row-Inserted}
use aleth_os_tool_passport.Store.Logged.{
  IsLogged, insert_generated_event-IsLogged, transition-events,
}
use aleth_os_tool_passport.Store.Freezes.{
  insert_passport, insert_provenance, create_passport_freeze, stamped,
}
use aleth_os_tool_passport.Store.Approvals.{
  insert_approval, create_approval, insert_receipt, create_attestation_receipt, settled_at,
}

insert_passport-events :
    (db db' : Db) (x : Passport) → insert_passport db x ≡ ok db' → db'.run_events ≡ db.run_events
unfolding insert_passport insert
insert_passport-events db db' x h = ground arith

insert_provenance-events :
    (db db' : Db) (x : ProvenanceRow)
    → insert_provenance db x ≡ ok db'
    → db'.run_events ≡ db.run_events
unfolding insert_provenance insert
insert_provenance-events db db' x h = ground arith

insert_approval-events :
    (db db' : Db) (x : Approval) → insert_approval db x ≡ ok db' → db'.run_events ≡ db.run_events
unfolding insert_approval insert
insert_approval-events db db' x h = ground arith

insert_receipt-events :
    (db db' : Db) (x : AttestationReceipt)
    → insert_receipt db x ≡ ok db'
    → db'.run_events ≡ db.run_events
unfolding insert_receipt insert
insert_receipt-events db db' x h = ground arith

module _ (p : Platform) (read : Bool) where
  linked-newest :
      (rows : List RunEvent) (event : RunEvent) (place : ℕ × Text)
      → last_hash (events_of event.run_id (linked p place.0 place.1 event ∷ rows))
        ≡ (linked p place.0 place.1 event).event_hash
  unfolding events_of linked
  linked-newest rows event place = ground arith

  -- the hash that is returned is that of the newest event
  pub insert_generated_event-newest :
      (db db' : Db) (event : RunEvent) {hash : Text}
      → insert_generated_event p read db event ≡ ok (hash, db')
      → last_hash (events_of event.run_id db'.run_events) ≡ hash
  unfolding insert_generated_event insert_linked
  insert_generated_event-newest db db' event h =
      let place = next_sequence_and_prev_hash read db.run_events event.run_id in
      let row = linked p place.0 place.1 event in
      let ((row', mid), made, h₁) = >>=-eq-ok (insert_event_row db row >>= λ d. ok (row, d)) _ h in
      let (mid', inserted, h₂) = >>=-eq-ok (insert_event_row db row) _ made in
      let i = insert_event_row-Inserted db mid' row inserted in
      let newest = linked-newest db.run_events event place in
      let same : db'.run_events ≡ row ∷ db.run_events = cc in rw same (newest ∙ cc)

  -- If the events of every run form a hash chain, the event has the run ID of the Passport, and
  -- create_passport_freeze of the repository succeeds, then the chains hold after it, and the
  -- audit_log_hash of the provenance that it returns is the hash of the newest event of that run.
  pub create_passport_freeze-audit_log_hash :
      (db db' : Db) (passport : Passport) (provenance : Provenance) (event : RunEvent)
      {r : PassportFreezeResult}
      → create_passport_freeze p read db passport provenance event ≡ ok (r, db')
      → IsLogged p db.run_events
      → event.run_id ≡ passport.run_id
      → IsLogged p db'.run_events
        × (r.provenance.audit_log_hash ≡ last_hash (events_of passport.run_id db'.run_events))
  unfolding create_passport_freeze
  create_passport_freeze-audit_log_hash db db' passport provenance event {r} h c own =
      let ((hash, db₁), logged, h₁) = >>=-eq-ok (insert_generated_event p read db event) _ h in
      let (db₂, added, h₂) = >>=-eq-ok (insert_passport db₁ passport) _ h₁ in
      let (db₃, kept, h₃) =
        >>=-eq-ok (insert_provenance db₂ (stamped passport provenance hash)) _ h₂ in
      let out = ok_injective h₃ in
      let same : db'.run_events ≡ db₁.run_events =
        sym (ap (λ t. t.1.run_events) out)
        ∙ insert_provenance-events db₂ db₃ (stamped passport provenance hash) kept
        ∙ insert_passport-events db₁ db₂ passport added in
      let newest = insert_generated_event-newest db db₁ event logged in
      (
        rw same (insert_generated_event-IsLogged p read db db₁ event logged c),
        sym (ap (λ t. t.0.provenance.audit_log_hash) out)
            ∙ subst₂ (λ i rows. hash ≡ last_hash (events_of i rows)) own (sym same) (sym newest),
      )

  -- If the events of every run form a hash chain, and create_approval of the repository succeeds,
  -- then they do so after it.
  pub create_approval-IsLogged :
      (db db' : Db) (approval : Approval) (event : RunEvent) (expected next : RunStatus)
      {a : Approval}
      → create_approval p read db approval event expected next ≡ ok (a, db')
      → IsLogged p db.run_events
      → IsLogged p db'.run_events
  unfolding create_approval
  create_approval-IsLogged db db' approval event expected next h c =
      let (db₁, moved, h₁) =
        >>=-eq-ok
          (transition db approval.run_id expected (some next) (some (codes "human_review_gate"))
            approval.decided_at)
          _ h in
      let (db₂, added, h₂) = >>=-eq-ok (insert_approval db₁ approval) _ h₁ in
      let ((hash, db₃), logged, h₃) = >>=-eq-ok (insert_generated_event p read db₂ event) _ h₂ in
      let same : db₂.run_events ≡ db.run_events =
        insert_approval-events db₁ db₂ approval added
        ∙ transition-events db db₁ approval.run_id expected (some next)
            (some (codes "human_review_gate")) approval.decided_at moved in
      let out : db'.run_events ≡ db₃.run_events =
        sym (ap (λ t. t.1.run_events) (ok_injective h₃)) in
      rw out (insert_generated_event-IsLogged p read db₂ db₃ event logged (rw same c))

  -- If the events of every run form a hash chain, and create_attestation_receipt succeeds, then
  -- they do so after it, with its two events.
  pub create_attestation_receipt-IsLogged :
      (db db' : Db) (receipt : AttestationReceipt) (first second : RunEvent) (expected : RunStatus)
      {r : AttestationReceipt}
      → create_attestation_receipt p read db receipt first second expected ≡ ok (r, db')
      → IsLogged p db.run_events
      → IsLogged p db'.run_events
  unfolding create_attestation_receipt
  create_attestation_receipt-IsLogged db db' receipt first second expected h c =
      let (db₁, moved, h₁) =
        >>=-eq-ok
          (transition db receipt.run_id expected (some success) (some (codes "attest_onchain"))
            (settled_at receipt))
          _ h in
      let (db₂, added, h₂) = >>=-eq-ok (insert_receipt db₁ receipt) _ h₁ in
      let ((hash, db₃), logged, h₃) = >>=-eq-ok (insert_generated_event p read db₂ first) _ h₂ in
      let ((hash', db₄), logged', h₄) = >>=-eq-ok (insert_generated_event p read db₃ second) _ h₃ in
      let same : db₂.run_events ≡ db.run_events =
        insert_receipt-events db₁ db₂ receipt added
        ∙ transition-events db db₁ receipt.run_id expected (some success)
            (some (codes "attest_onchain")) (settled_at receipt) moved in
      let out : db'.run_events ≡ db₄.run_events =
        sym (ap (λ t. t.1.run_events) (ok_injective h₄)) in
      let c₃ = insert_generated_event-IsLogged p read db₂ db₃ first logged (rw same c) in
      rw out (insert_generated_event-IsLogged p read db₃ db₄ second logged' c₃)
