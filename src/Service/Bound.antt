-- ===== src/Service/Bound.antt =====
-- What a recorded decision is bound to: the latest freeze of a run that waits for it.
use aleth_os_tool_passport.Prelude.{
  refl, &&_true, =ₜ→≡, ℕ, ◌+◌, ◌-◌, inl, inr, false, find, find-true, Option-cases, ◌≡◌, subst, sym,
  ◌∙◌, Bool, true, not, ◌&&◌, Option, none, some, arith, ◌==◌, Text, codes, ◌=ₜ◌, ok, ap, ==→≡,
  >>=-eq-ok, ok_or-ok, ok_injective, map_err-ok, refuse, ok_or, map_err,
}
use aleth_os_tool_passport.Platform.{Platform}
use aleth_os_tool_passport.Domain.Run.{Run, RunStatus, waiting_approval}
use aleth_os_tool_passport.Domain.RunEvent.{RunEvent}
use aleth_os_tool_passport.Domain.Passport.{Passport, PassportFreezeResult}
use aleth_os_tool_passport.Domain.Approval.{
  ApprovalDecision, approve_testnet_attestation, approve_offchain, reject, Approval,
  CreateApprovalRequest,
}
use aleth_os_tool_passport.Store.{Db}
use aleth_os_tool_passport.Store.Events.{get_run, transition, insert_generated_event}
use aleth_os_tool_passport.Store.Freezes.{get_passport_freeze, next_passport_sequence}
use aleth_os_tool_passport.Store.Approvals
use aleth_os_tool_passport.Store.Approvals.{
  get_approval, insert_approval, get_attestation_receipt, claim_attestation_attempt,
}
use aleth_os_tool_passport.Store.Numbers.{has_from, has_from-above, next_passport_sequence-IsNext}
use aleth_os_tool_passport.Service.{World, parse_run_id}
use aleth_os_tool_passport.Service.Requests.{
  validate_approval_request, validate_chain, validate_passport_sequence, validate_hash,
}
use aleth_os_tool_passport.Service.Approve

is_bound-hashes :
    (request : CreateApprovalRequest) (f : PassportFreezeResult)
    → Approve.is_bound request f ≡ true
    → (request.passport_hash ≡ f.provenance.passport_hash)
      × (request.audit_log_hash ≡ f.provenance.audit_log_hash)
      × (request.evidence_manifest_hash ≡ f.provenance.evidence_manifest_hash)
      × (request.passport_sequence ≡ f.passport.passport_sequence)
unfolding Approve.is_bound
is_bound-hashes request f h =
    let first = request.passport_sequence == f.passport.passport_sequence in
    let second = request.passport_hash =ₜ f.provenance.passport_hash in
    let third = request.audit_log_hash =ₜ f.provenance.audit_log_hash in
    let fourth = request.evidence_manifest_hash =ₜ f.provenance.evidence_manifest_hash in
    let (h₁, h₂) = &&_true (first && second && third) fourth h in
    let (h₃, h₄) = &&_true (first && second) third h₁ in
    let (h₅, h₆) = &&_true first second h₃ in (=ₜ→≡ _ _ h₆, =ₜ→≡ _ _ h₄, =ₜ→≡ _ _ h₂, ==→≡ _ _ h₅)

check_binding-found :
    (db : Db) (id : ℕ) (request : CreateApprovalRequest)
    → Approve.check_binding db id request ≡ ok tt
    → (f : PassportFreezeResult) × (get_passport_freeze db id (next_passport_sequence db id - 1)
        ≡ some f)
      × (Approve.is_bound request f ≡ true)
unfolding Approve.check_binding
check_binding-found db id request h =
    let (f, found, h₁) =
      >>=-eq-ok (ok_or _ (get_passport_freeze db id (next_passport_sequence db id - 1))) _ h in
    (f, ok_or-ok _ _ found, ground arith)

get_passport_freeze-row :
    (db : Db) (id n : ℕ) (f : PassportFreezeResult) (x : Passport)
    → get_passport_freeze db id n ≡ some f
    → find (λ x. x.run_id == id && x.passport_sequence == n) db.passports ≡ some x
    → x ≡ f.passport
unfolding get_passport_freeze
get_passport_freeze-row db id n f x h found =
    elim (Option-cases (find (λ x. x.run_id == id && x.freeze_version == n) db.provenances)) [
      | inl nothing ↦ ground arith
      | inr (row, here) ↦
          let built : get_passport_freeze db id n
              ≡ some (record { passport = x; provenance = row.provenance }) =
            rw (get_passport_freeze, found, here) refl in
          ap (λ o. elim o [ none ↦ x | some y ↦ y.passport ]) (sym built ∙ h)
    ]

get_passport_freeze-sequence :
    (db : Db) (id n : ℕ) (f : PassportFreezeResult)
    → get_passport_freeze db id n ≡ some f
    → f.passport.passport_sequence ≡ n
unfolding get_passport_freeze
get_passport_freeze-sequence db id n f h =
    let wanted : Passport → Bool = λ x. x.run_id == id && x.passport_sequence == n in
    elim (Option-cases (find wanted db.passports)) [
      | inl nothing ↦ ground arith
      | inr (x, found) ↦
          let right = find-true wanted db.passports {x = x} found in
          let same : x ≡ f.passport = get_passport_freeze-row db id n f x h found in
          ap (λ y. y.passport_sequence) (sym same) ∙ ==→≡ _ _ (&&_true (x.run_id == id) _ right).1
    ]

-- no freeze of the run has a higher number than the one that is read
latest-newest :
    (db : Db) (id : ℕ) (f : PassportFreezeResult)
    → get_passport_freeze db id (next_passport_sequence db id - 1) ≡ some f
    → has_from id (f.passport.passport_sequence + 1) db.passports ≡ false
latest-newest db id f h =
    let next = next_passport_sequence-IsNext db id in
    let read = get_passport_freeze-sequence db id _ f h in
    has_from-above id (next_passport_sequence db id) (f.passport.passport_sequence + 1) db.passports
      (ground arith) next.above

validate_chain-Sepolia :
    (d : ApprovalDecision) (chain_id : Option ℕ) (contract : Option Text)
    → validate_chain d chain_id contract ≡ ok tt
    → d ≡ approve_testnet_attestation
    → chain_id ≡ some 11155111
unfolding validate_chain
validate_chain-Sepolia approve_testnet_attestation none contract h e = ground arith
validate_chain-Sepolia approve_testnet_attestation (some n) contract h e =
    let (_, sepolia, h₁) = >>=-eq-ok (refuse (not (n == 11155111)) _) _ h in
    ap some (==→≡ n 11155111 (ground arith))
validate_chain-Sepolia approve_offchain chain_id contract h e = ground arith
validate_chain-Sepolia reject chain_id contract h e = ground arith

validate_approval_request-chain :
    (request : CreateApprovalRequest)
    → validate_approval_request request ≡ ok tt
    → validate_chain request.decision request.chain_id request.registry_contract ≡ ok tt
unfolding validate_approval_request
validate_approval_request-chain request h =
    let (_, a, h₁) =
      >>=-eq-ok (refuse (not (request.approval_schema_version =ₜ codes "0.1.0")) _) _ h in
    let (_, b, h₂) = >>=-eq-ok (validate_passport_sequence request.passport_sequence) _ h₁ in
    let (_, c, h₃) = >>=-eq-ok (validate_hash "passport_hash" request.passport_hash) _ h₂ in
    let (_, d, h₄) = >>=-eq-ok (validate_hash "audit_log_hash" request.audit_log_hash) _ h₃ in
    let (_, e, h₅) =
      >>=-eq-ok (validate_hash "evidence_manifest_hash" request.evidence_manifest_hash) _ h₄ in
    h₅

-- what a recorded decision is bound to
pub record IsBound (db : Db) (a : Approval) : Type 0 where
  pub run : Run
  pub run_found : get_run db a.run_id ≡ some run
  pub is_waiting : run.status ≡ waiting_approval
  pub freeze : PassportFreezeResult
  pub latest :
      get_passport_freeze db a.run_id (next_passport_sequence db a.run_id - 1) ≡ some freeze
  pub newest : has_from a.run_id (freeze.passport.passport_sequence + 1) db.passports ≡ false
  pub passport_sequence : a.passport_sequence ≡ freeze.passport.passport_sequence
  pub passport_hash : a.passport_hash ≡ freeze.provenance.passport_hash
  pub audit_log_hash : a.audit_log_hash ≡ freeze.provenance.audit_log_hash
  pub evidence_manifest_hash : a.evidence_manifest_hash ≡ freeze.provenance.evidence_manifest_hash
  pub sepolia : a.decision ≡ approve_testnet_attestation → a.chain_id ≡ some 11155111

waiting_run-found :
    (db : Db) (id : ℕ) (run : Run)
    → Approve.waiting_run db id ≡ ok run
    → (get_run db id ≡ some run) × (run.status ≡ waiting_approval)
unfolding Approve.waiting_run
waiting_run-found db id run h = ground arith

approval_of-IsBound :
    (db : Db) (fresh : Approve.Fresh) (id : ℕ) (request : CreateApprovalRequest) (run : Run)
    → Approve.waiting_run db id ≡ ok run
    → validate_approval_request request ≡ ok tt
    → Approve.check_binding db id request ≡ ok tt
    → IsBound db (Approve.approval_of fresh id request)
unfolding Approve.approval_of
approval_of-IsBound db fresh id request run waiting valid bound =
    let (run_found, is_waiting) = waiting_run-found db id run waiting in
    let (f, found, good) = check_binding-found db id request bound in
    let (h₁, h₂, h₃, h₄) = is_bound-hashes request f good in
    record {
      run = run;
      run_found = run_found;
      is_waiting = is_waiting;
      freeze = f;
      latest = found;
      newest = latest-newest db id f found;
      passport_sequence = h₄;
      passport_hash = h₁;
      audit_log_hash = h₂;
      evidence_manifest_hash = h₃;
      sepolia =
          validate_chain-Sepolia request.decision request.chain_id request.registry_contract
            (validate_approval_request-chain request valid);
    }

repository-approval :
    (p : Platform) (read : Bool) (db db' : Db) (approval a : Approval) (event : RunEvent)
    (expected next : RunStatus)
    → Approvals.create_approval p read db approval event expected next ≡ ok (a, db')
    → a ≡ approval
unfolding Approvals.create_approval
repository-approval p read db db' approval a event expected next h =
    let (db₁, moved, h₁) =
      >>=-eq-ok
        (transition db approval.run_id expected (some next) (some (codes "human_review_gate"))
          approval.decided_at)
        _ h in
    let (db₂, added, h₂) = >>=-eq-ok (insert_approval db₁ approval) _ h₁ in
    let ((hash, db₃), logged, h₃) = >>=-eq-ok (insert_generated_event p read db₂ event) _ h₂ in
    sym (ap (λ t. t.0) (ok_injective h₃))

-- If create_approval of the service returns an approval, then in the database before the call its
-- run is found and waiting for approval, and the sequence number and the three hashes of the
-- approval are those of a Passport freeze of that run; no Passport of the run has a higher
-- sequence number than this freeze; and if it decides for a testnet attestation, its chain ID is
-- 11155111.
pub create_approval-IsBound :
    (p : Platform) (read : Bool) (fresh : Approve.Fresh) (run_id : Text)
    (request : CreateApprovalRequest) (w w' : World) (a : Approval)
    → Approve.create_approval p read fresh run_id request w ≡ ok (a, w')
    → IsBound w.db a
unfolding Approve.create_approval
create_approval-IsBound p read fresh run_id request w w' a h =
    let (id, parsed, h₁) = >>=-eq-ok (parse_run_id p run_id) _ h in
    let (run, waiting, h₂) = >>=-eq-ok (Approve.waiting_run w.db id) _ h₁ in
    let (_, valid, h₃) = >>=-eq-ok (validate_approval_request request) _ h₂ in
    let (_, bound, h₄) = >>=-eq-ok (Approve.check_binding w.db id request) _ h₃ in
    let approval = Approve.approval_of fresh id request in
    let event = Approve.resolved_event p fresh approval in
    let ((a', db), made, h₅) =
      >>=-eq-ok
        (map_err Approve.approval_error (
          Approvals.create_approval p read w.db approval event run.status
            (Approve.next_status request.decision)))
        _ h₄ in
    let same : a' ≡ a = ap (λ t. t.0) (ok_injective h₅) in
    let e =
      repository-approval p read w.db db approval a' event run.status
        (Approve.next_status request.decision) (map_err-ok Approve.approval_error _ made) in
    subst (IsBound w.db) (sym e ∙ same)
      (approval_of-IsBound w.db fresh id request run waiting valid bound)
