-- ===== src/Store/Sequences.antt =====
-- What every sequence of writes of the repository keeps: the hash chains.
use aleth_os_tool_passport.Prelude.{ℕ, ◌≡◌, arith, ok}
use aleth_os_tool_passport.Platform.{Platform}
use aleth_os_tool_passport.Store.{Db, insert}
use aleth_os_tool_passport.Store.Approvals.{claim_attestation_attempt}
use aleth_os_tool_passport.Store.Logged.{IsLogged, append_event-IsLogged, create_run-IsLogged}
use aleth_os_tool_passport.Store.Decisions.{
  create_passport_freeze-audit_log_hash, create_approval-IsLogged,
  create_attestation_receipt-IsLogged,
}
use aleth_os_tool_passport.Store.ToolRows.{create_tool-ToolsOnly, add_external_id-ToolsOnly}
use aleth_os_tool_passport.Store.Writes.{
  Write, run_created, event_appended, artifact_created, evidence_created, board_frozen,
  results_created, passport_frozen, approval_created, attempt_claimed, receipt_created,
  tool_created, identifier_added, Writes, unwritten, then_write, WithEvent-IsLogged,
  create_artifact-WithEvent, create_evidence-WithEvent, create_check_results-WithEvent,
  create_evidence_freeze-Frozen,
}

claim-events :
    (db db' : Db) (run_id approval_id now : ℕ)
    → claim_attestation_attempt db run_id approval_id now ≡ ok db'
    → db'.run_events ≡ db.run_events
unfolding claim_attestation_attempt insert
claim-events db db' run_id approval_id now h = ground arith

module _ (p : Platform) where
  Write-IsLogged :
      {db db' : Db} → Write p db db' → IsLogged p db.run_events → IsLogged p db'.run_events
  Write-IsLogged (run_created {db} {db'} run event h) c = create_run-IsLogged p db db' run event h c
  Write-IsLogged (event_appended {db} {db'} read event expected next place h) c =
      append_event-IsLogged p read db db' event expected next place h c
  Write-IsLogged (artifact_created {db} {db'} read x event h) c =
      let (t, a) = create_artifact-WithEvent p read db db' x event h in
      WithEvent-IsLogged p t a.events c
  Write-IsLogged (evidence_created {db} {db'} read x event h) c =
      let (t, a) = create_evidence-WithEvent p read db db' x event h in
      WithEvent-IsLogged p t a.events c
  Write-IsLogged (board_frozen {db} {db'} read f event h) c =
      let t = create_evidence_freeze-Frozen p read db db' f event h in
      WithEvent-IsLogged p t.written t.events c
  Write-IsLogged (results_created {db} {db'} read x event h) c =
      let (t, a) = create_check_results-WithEvent p read db db' x event h in
      WithEvent-IsLogged p t a.events c
  Write-IsLogged (passport_frozen {db} {db'} read passport provenance event own h) c =
      (create_passport_freeze-audit_log_hash p read db db' passport provenance event h c own).0
  Write-IsLogged (approval_created {db} {db'} read approval event expected next h) c =
      create_approval-IsLogged p read db db' approval event expected next h c
  Write-IsLogged (attempt_claimed {db} {db'} run_id approval_id now h) c =
      rw (claim-events db db' run_id approval_id now h) c
  Write-IsLogged (receipt_created {db} {db'} read receipt first second expected h) c =
      create_attestation_receipt-IsLogged p read db db' receipt first second expected h c
  Write-IsLogged (tool_created {db} {db'} tool h) c =
      rw ((create_tool-ToolsOnly db db' tool h).events) c
  Write-IsLogged (identifier_added {db} {db'} tool_id x now h) c =
      rw ((add_external_id-ToolsOnly db db' tool_id x now h).events) c

  -- If the events of every run form a hash chain, then they do so after any sequence of writes of
  -- the repository: new runs, events, artifacts, evidence, boards, results, Passports whose event
  -- has their run ID, approvals, attempts, receipts, tools and identifiers.
  pub Writes-IsLogged :
      {db db' : Db} → Writes p db db' → IsLogged p db.run_events → IsLogged p db'.run_events
  Writes-IsLogged unwritten c = c
  Writes-IsLogged (then_write before w) c = Write-IsLogged w (Writes-IsLogged before c)
