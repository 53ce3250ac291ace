-- ===== src/Service/Effects.antt =====
-- What service calls do to the submissions and to the claims.
use aleth_os_tool_passport.Prelude.{
  ◌≡◌, refl, inl, inr, sym, ◌∙◌, Bool, ◌∷◌, Text, Result, ok, ap, >>=-eq-ok, ok_injective,
  map_err-ok, map_err, Result-cases, Message,
}
use aleth_os_tool_passport.Platform.{Platform}
use aleth_os_tool_passport.Domain.Approval.{Approval, CreateApprovalRequest, AttestationCommitment}
use aleth_os_tool_passport.Store.Approvals
use aleth_os_tool_passport.Store.Approvals.{create_attestation_receipt, claim_attestation_attempt}
use aleth_os_tool_passport.Store.Kept.{
  create_approval-SameKept, create_attestation_receipt-SameKept,
}
use aleth_os_tool_passport.Service.{World, parse_run_id}
use aleth_os_tool_passport.Service.Requests.{validate_approval_request}
use aleth_os_tool_passport.Service.Approve
use aleth_os_tool_passport.Service.Attest
use aleth_os_tool_passport.Service.Attest.{
  Ready, send, record_receipt, receipt_of, submitted_event, confirmed_event, receipt_error,
}
use aleth_os_tool_passport.Domain.Approval.{AttestationReceipt}

record_receipt-effect :
    (p : Platform) (read : Bool) (fresh : Attest.Fresh) (ready : Ready) (tx : Text) (w w' : World)
    {r : AttestationReceipt}
    → record_receipt p read fresh ready tx w ≡ ok (r, w')
    → (w'.submitted ≡ w.submitted) × (w'.db.attestation_attempts ≡ w.db.attestation_attempts)
unfolding record_receipt
record_receipt-effect p read fresh ready tx w w' h =
    let first = submitted_event p fresh ready.commitment tx in
    let second = confirmed_event p fresh ready.commitment tx in
    let receipt = receipt_of fresh ready.commitment tx in
    let ((r, db), made, h₁) =
      >>=-eq-ok
        (map_err receipt_error
          (create_attestation_receipt p read w.db receipt first second ready.status))
        _ h in
    let same = ok_injective h₁ in
    (
      sym (ap (λ t. t.1.submitted) same),
      sym (ap (λ t. t.1.db.attestation_attempts) same)
          ∙ ap (λ t. t.0)
              (create_attestation_receipt-SameKept p read w.db db receipt first second ready.status
                (map_err-ok receipt_error _ made)),
    )

-- Sending submits once, and claims nothing.
pub send-effect :
    (submit : AttestationCommitment → Result Message Text) (p : Platform) (read : Bool)
    (fresh : Attest.Fresh) (ready : Ready) (w : World)
    → ((send submit p read fresh ready w).1.submitted ≡ ready.commitment ∷ w.submitted)
      × ((send submit p read fresh ready w).1.db.attestation_attempts ≡ w.db.attestation_attempts)
unfolding send
send-effect submit p read fresh ready w = elim (Result-cases (submit ready.commitment)) [
  | inl (message, failed) ↦ rw (send, failed) (refl, refl)
  | inr (tx, sent) ↦
      let w₁ = record w { submitted = ready.commitment ∷ w.submitted } in
      elim (Result-cases (record_receipt p read fresh ready tx w₁)) [
        | inl (e, lost) ↦ rw (send, sent, lost) (refl, refl)
        | inr ((r, w₂), kept) ↦
            rw (send, sent, kept) (record_receipt-effect p read fresh ready tx w₁ w₂ kept)
      ]
]

pub create_approval-effect :
    (p : Platform) (read : Bool) (fresh : Approve.Fresh) (run_id : Text)
    (request : CreateApprovalRequest) (w w' : World) {a : Approval}
    → Approve.create_approval p read fresh run_id request w ≡ ok (a, w')
    → (w'.submitted ≡ w.submitted) × (w'.db.attestation_attempts ≡ w.db.attestation_attempts)
unfolding Approve.create_approval
create_approval-effect p read fresh run_id request w w' h =
    let (id, parsed, h₁) = >>=-eq-ok (parse_run_id p run_id) _ h in
    let (run, waiting, h₂) = >>=-eq-ok (Approve.waiting_run w.db id) _ h₁ in
    let (_, valid, h₃) = >>=-eq-ok (validate_approval_request request) _ h₂ in
    let (_, bound, h₄) = >>=-eq-ok (Approve.check_binding w.db id request) _ h₃ in
    let approval = Approve.approval_of fresh id request in
    let event = Approve.resolved_event p fresh approval in
    let ((a, db), made, h₅) =
      >>=-eq-ok
        (map_err Approve.approval_error (
          Approvals.create_approval p read w.db approval event run.status
            (Approve.next_status request.decision)))
        _ h₄ in
    let same = ok_injective h₅ in
    (
      sym (ap (λ t. t.1.submitted) same),
      sym (ap (λ t. t.1.db.attestation_attempts) same)
          ∙ ap (λ t. t.0)
              (create_approval-SameKept p read w.db db approval event run.status
                (Approve.next_status request.decision) (map_err-ok Approve.approval_error _ made)),
    )
