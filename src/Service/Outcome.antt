-- ===== src/Service/Outcome.antt =====
-- What a recorded decision leaves behind: the approval, and the status that it decides for.
use aleth_os_tool_passport.Prelude.{
  ℕ, ◌≡◌, refl, subst, subst₂, sym, ◌∙◌, Bool, true, some, arith, Text, codes, ok, ap, >>=-eq-ok,
  ok_injective, map_err-ok, ◌>>=◌, map_err,
}
use aleth_os_tool_passport.Platform.{Platform}
use aleth_os_tool_passport.Domain.Run.{
  Run, RunStatus, running, success, failed, same_status, same_status_refl,
}
use aleth_os_tool_passport.Domain.RunEvent.{RunEvent}
use aleth_os_tool_passport.Domain.Approval.{
  Approval, ApprovalDecision, CreateApprovalRequest, approve_offchain, approve_testnet_attestation,
  reject,
}
use aleth_os_tool_passport.Store.{Db, insert}
use aleth_os_tool_passport.Store.Events.{
  get_run, transition, insert_event_row, insert_linked, linked, next_sequence_and_prev_hash,
  insert_generated_event,
}
use aleth_os_tool_passport.Store.Approvals
use aleth_os_tool_passport.Store.Approvals.{insert_approval, get_approval}
use aleth_os_tool_passport.Store.Runs.{transition-get_run, insert_generated_event-get_run}
use aleth_os_tool_passport.Service.{World, parse_run_id}
use aleth_os_tool_passport.Service.Requests.{validate_approval_request}
use aleth_os_tool_passport.Service.Approve

insert_approval-found :
    (db db' : Db) (a : Approval)
    → insert_approval db a ≡ ok db'
    → (get_approval db' a.run_id ≡ some a) × (db'.runs ≡ db.runs)
unfolding insert_approval insert get_approval
insert_approval-found db db' a h = (ground arith, ground arith)

insert_event_row-approvals :
    (db db' : Db) (row : RunEvent) → insert_event_row db row ≡ ok db' → db'.approvals ≡ db.approvals
unfolding insert_event_row insert
insert_event_row-approvals db db' row h = ground arith

insert_generated_event-approvals :
    (p : Platform) (read : Bool) (db db' : Db) (event : RunEvent) (hash : Text)
    → insert_generated_event p read db event ≡ ok (hash, db')
    → db'.approvals ≡ db.approvals
unfolding insert_generated_event insert_linked
insert_generated_event-approvals p read db db' event hash h =
    let place = next_sequence_and_prev_hash read db.run_events event.run_id in
    let row = linked p place.0 place.1 event in
    let ((row', mid), made, h₁) = >>=-eq-ok (insert_event_row db row >>= λ d. ok (row, d)) _ h in
    let (mid', inserted, h₂) = >>=-eq-ok (insert_event_row db row) _ made in
    sym (ap (λ t. t.1.approvals) (ok_injective h₁))
    ∙ sym (ap (λ t. t.1.approvals) (ok_injective h₂))
    ∙ insert_event_row-approvals db mid' row inserted

-- the status that a decision leads to
pub data Settles : ApprovalDecision → RunStatus → Type 0 where
  publish : Settles approve_offchain success
  proceed : Settles approve_testnet_attestation running
  discard : Settles reject failed

next_status-Settles : (d : ApprovalDecision) → Settles d (Approve.next_status d)
unfolding Approve.next_status
next_status-Settles approve_offchain = publish
next_status-Settles approve_testnet_attestation = proceed
next_status-Settles reject = discard

-- the state after a decision
pub record IsDecided (db : Db) (a : Approval) : Type 0 where
  pub approval_found : get_approval db a.run_id ≡ some a
  pub run : Run
  pub run_found : get_run db a.run_id ≡ some run
  pub status : Settles a.decision run.status
  pub current_node : run.current_node ≡ some (codes "human_review_gate")

get_run-runs : (db db' : Db) (id : ℕ) → db'.runs ≡ db.runs → get_run db' id ≡ get_run db id
unfolding get_run
get_run-runs db db' id e = rw e refl

get_approval-approvals :
    (db db' : Db) (id : ℕ) → db'.approvals ≡ db.approvals → get_approval db' id ≡ get_approval db id
unfolding get_approval
get_approval-approvals db db' id e = rw e refl

repository-IsDecided :
    (p : Platform) (read : Bool) (db db' : Db) (approval a : Approval) (event : RunEvent)
    (run : Run)
    → get_run db approval.run_id ≡ some run
    → Approvals.create_approval p read db approval event run.status
        (Approve.next_status approval.decision)
      ≡ ok (a, db')
    → same_status run.status run.status ≡ true
    → IsDecided db' a
unfolding Approvals.create_approval
repository-IsDecided p read db db' approval a event run found h own =
    let next = Approve.next_status approval.decision in
    let (db₁, moved, h₁) =
      >>=-eq-ok
        (transition db approval.run_id run.status (some next) (some (codes "human_review_gate"))
          approval.decided_at)
        _ h in
    let (db₂, added, h₂) = >>=-eq-ok (insert_approval db₁ approval) _ h₁ in
    let ((hash, db₃), logged, h₃) = >>=-eq-ok (insert_generated_event p read db₂ event) _ h₂ in
    let (stored, runs) = insert_approval-found db₁ db₂ approval added in
    let there =
      transition-get_run db db₁ approval.run_id run.status (some next)
        (some (codes "human_review_gate")) approval.decided_at run moved found own in
    let (r', after_event, status, node_of) =
      insert_generated_event-get_run p read db₂ db₃ event hash approval.run_id _ logged
        (get_run-runs db₁ db₂ approval.run_id runs ∙ there) in
    let kept =
      get_approval-approvals db₂ db₃ approval.run_id
        (insert_generated_event-approvals p read db₂ db₃ event hash logged) in
    let decided : IsDecided db₃ approval = record {
      approval_found = kept ∙ stored;
      run = r';
      run_found = after_event;
      status =
          subst (Settles approval.decision) (sym status) (next_status-Settles approval.decision);
      current_node = node_of;
    } in
    subst₂ IsDecided (ap (λ t. t.1) (ok_injective h₃)) (ap (λ t. t.0) (ok_injective h₃)) decided

waiting_run-get_run :
    (db : Db) (id : ℕ) (run : Run) → Approve.waiting_run db id ≡ ok run → get_run db id ≡ some run
unfolding Approve.waiting_run
waiting_run-get_run db id run h = ground arith

approval_of-fields :
    (fresh : Approve.Fresh) (id : ℕ) (request : CreateApprovalRequest)
    → ((Approve.approval_of fresh id request).run_id ≡ id)
      × ((Approve.approval_of fresh id request).decision ≡ request.decision)
unfolding Approve.approval_of
approval_of-fields fresh id request = (refl, refl)

-- If create_approval of the service returns an approval, then afterwards the query for the
-- approval of its run finds this one, and the run is found at the node human_review_gate with the
-- status of the decision: success for approve_offchain, running for approve_testnet_attestation,
-- failed for reject.
pub create_approval-IsDecided :
    (p : Platform) (read : Bool) (fresh : Approve.Fresh) (run_id : Text)
    (request : CreateApprovalRequest) (w w' : World) (a : Approval)
    → Approve.create_approval p read fresh run_id request w ≡ ok (a, w')
    → IsDecided w'.db a
unfolding Approve.create_approval
create_approval-IsDecided p read fresh run_id request w w' a h =
    let (id, parsed, h₁) = >>=-eq-ok (parse_run_id p run_id) _ h in
    let (run, waiting, h₂) = >>=-eq-ok (Approve.waiting_run w.db id) _ h₁ in
    let (_, valid, h₃) = >>=-eq-ok (validate_approval_request request) _ h₂ in
    let (_, bound, h₄) = >>=-eq-ok (Approve.check_binding w.db id request) _ h₃ in
    let approval = Approve.approval_of fresh id request in
    let event = Approve.resolved_event p fresh approval in
    let ((a', db), made, h₅) =
      >>=-eq-ok
        (map_err Approve.approval_error (
          Approvals.create_approval p read w.db approval event run.status
            (Approve.next_status request.decision)))
        _ h₄ in
    let (ids, decisions) = approval_of-fields fresh id request in
    let found : get_run w.db approval.run_id ≡ some run =
      subst (λ i. get_run w.db i ≡ some run) (sym ids) (waiting_run-get_run w.db id run waiting) in
    let made' =
      subst
        (λ d.
          Approvals.create_approval p read w.db approval event run.status (Approve.next_status d)
          ≡ ok (a', db))
        (sym decisions) (map_err-ok Approve.approval_error _ made) in
    let decided =
      repository-IsDecided p read w.db db approval a' event run found made'
        (same_status_refl run.status) in
    let out = ok_injective h₅ in subst₂ IsDecided (ap (λ t. t.1.db) out) (ap (λ t. t.0) out) decided
