-- ===== src/Service/Authority.antt =====
-- What is handed to the submitter was approved by a human, for Sepolia, and is frozen.
use aleth_os_tool_passport.Prelude.{
  &&_true, =ₜ→≡, ℕ, ◌≡◌, refl, ◌⊎◌, inl, inr, subst, sym, Bool, true, false, not, ◌&&◌, some, ◌∷◌,
  arith, Text, ◌=ₜ◌, Result, ok, ap, >>=-eq-ok, ok_or-ok, ok_injective, refuse, ok_or, Result-cases,
  Message, is_some,
}
use aleth_os_tool_passport.Platform.{Platform}
use aleth_os_tool_passport.Domain.Run.{Run, running}
use aleth_os_tool_passport.Domain.Passport.{PassportFreezeResult, Provenance}
use aleth_os_tool_passport.Domain.Approval.{
  approve_testnet_attestation, Approval, AttestationCommitment,
}
use aleth_os_tool_passport.Store.{Db}
use aleth_os_tool_passport.Store.Events.{get_run}
use aleth_os_tool_passport.Store.Freezes.{get_passport_freeze}
use aleth_os_tool_passport.Store.Approvals.{
  get_approval, get_attestation_receipt, claim_attestation_attempt,
}
use aleth_os_tool_passport.Service.{World, parse_run_id}
use aleth_os_tool_passport.Service.Attest
use aleth_os_tool_passport.Service.Effects.{send-effect}
use aleth_os_tool_passport.Service.Attest.{
  Ready, running_run, attestation_approval, approved_provenance, agrees, commitment_of, prepare,
  claim_error, send, claim_and_send, submit_attestation,
}

-- the human decision behind a commitment
pub record IsAuthorized (db : Db) (c : AttestationCommitment) : Type 0 where
  pub run : Run
  pub run_found : get_run db c.run_id ≡ some run
  pub is_running : run.status ≡ running
  pub no_receipt : is_some (get_attestation_receipt db c.run_id) ≡ false
  pub approval : Approval
  pub approval_found : get_approval db c.run_id ≡ some approval
  pub decision : approval.decision ≡ approve_testnet_attestation
  pub chain_id : approval.chain_id ≡ some c.chain_id
  pub registry_contract : approval.registry_contract ≡ some c.registry_contract
  pub passport_hash : approval.passport_hash ≡ c.passport_hash
  pub audit_log_hash : approval.audit_log_hash ≡ c.audit_log_hash
  pub evidence_manifest_hash : approval.evidence_manifest_hash ≡ c.evidence_manifest_hash
  pub freeze : PassportFreezeResult
  pub frozen : get_passport_freeze db c.run_id approval.passport_sequence ≡ some freeze
  pub onchain_run_id : c.onchain_run_id ≡ freeze.provenance.onchain_run_id

running_run-found :
    (db : Db) (id : ℕ) (run : Run)
    → running_run db id ≡ ok run
    → (get_run db id ≡ some run) × (run.status ≡ running)
unfolding running_run
running_run-found db id run h = ground arith

attestation_approval-found :
    (db : Db) (id : ℕ) (a : Approval)
    → attestation_approval db id ≡ ok a
    → (get_approval db id ≡ some a) × (a.decision ≡ approve_testnet_attestation)
unfolding attestation_approval
attestation_approval-found db id a h = ground arith

approved_provenance-found :
    (db : Db) (id : ℕ) (a : Approval) (v : Provenance)
    → approved_provenance db id a ≡ ok v
    → (f : PassportFreezeResult) × (get_passport_freeze db id a.passport_sequence ≡ some f)
      × (f.provenance ≡ v)
      × (agrees a v ≡ true)
unfolding approved_provenance
approved_provenance-found db id a v h =
    let (f, found, h₁) = >>=-eq-ok (ok_or _ (get_passport_freeze db id a.passport_sequence)) _ h in
    let (_, good, h₂) = >>=-eq-ok (refuse (not (agrees a f.provenance)) _) _ h₁ in
    let e : f.provenance ≡ v = ok_injective h₂ in
    (f, ok_or-ok _ _ found, e, subst (λ x. agrees a x ≡ true) e (ground arith))

agrees-hashes :
    (a : Approval) (v : Provenance)
    → agrees a v ≡ true
    → (a.passport_hash ≡ v.passport_hash)
      × (a.audit_log_hash ≡ v.audit_log_hash)
      × (a.evidence_manifest_hash ≡ v.evidence_manifest_hash)
unfolding agrees
agrees-hashes a v h =
    let first = a.passport_hash =ₜ v.passport_hash in
    let second = a.audit_log_hash =ₜ v.audit_log_hash in
    let third = a.evidence_manifest_hash =ₜ v.evidence_manifest_hash in
    let (h₁, h₂) = &&_true (first && second) third h in
    let (h₃, h₄) = &&_true first second h₁ in (=ₜ→≡ _ _ h₃, =ₜ→≡ _ _ h₄, =ₜ→≡ _ _ h₂)

prepare-IsAuthorized :
    (p : Platform) (run_id : Text) (db : Db) (ready : Ready)
    → prepare p run_id db ≡ ok ready
    → IsAuthorized db ready.commitment
unfolding prepare commitment_of
prepare-IsAuthorized p run_id db ready h =
    let (id, parsed, h₁) = >>=-eq-ok (parse_run_id p run_id) _ h in
    let (run, r, h₂) = >>=-eq-ok (running_run db id) _ h₁ in
    let (_, unsent, h₃) = >>=-eq-ok (refuse (is_some (get_attestation_receipt db id)) _) _ h₂ in
    let (a, b, h₄) = >>=-eq-ok (attestation_approval db id) _ h₃ in
    let (v, d, h₅) = >>=-eq-ok (approved_provenance db id a) _ h₄ in
    let (chain, e, h₆) = >>=-eq-ok (ok_or _ a.chain_id) _ h₅ in
    let (contract, g, h₇) = >>=-eq-ok (ok_or _ a.registry_contract) _ h₆ in
    let (run_found, is_running) = running_run-found db id run r in
    let (found, decided) = attestation_approval-found db id a b in
    let (freeze, frozen, same, good) = approved_provenance-found db id a v d in
    let (h₈, h₉, h₁₀) = agrees-hashes a v good in
    let out : commitment_of id run v chain contract ≡ ready.commitment =
      ap (λ x. x.commitment) (ok_injective h₇) in
    subst (IsAuthorized db) out (record {
      run = run;
      run_found = run_found;
      is_running = is_running;
      no_receipt = ground arith;
      approval = a;
      approval_found = found;
      decision = decided;
      chain_id = ok_or-ok _ _ e;
      registry_contract = ok_or-ok _ _ g;
      passport_hash = h₈;
      audit_log_hash = h₉;
      evidence_manifest_hash = h₁₀;
      freeze = freeze;
      frozen = frozen;
      onchain_run_id = sym (ap (λ x. x.onchain_run_id) same);
    })

-- A call of submit_attestation hands nothing to the submitter or exactly one commitment. In the
-- second case, in the database before the call, the run of the commitment is found and running, it
-- has no receipt, and its stored approval decides for a testnet attestation with the chain ID, the
-- contract and the three hashes of the commitment, whose on-chain run ID is that of the Passport
-- freeze that the approval names.
pub submit_attestation-IsAuthorized :
    (submit : AttestationCommitment → Result Message Text) (p : Platform) (read : Bool)
    (fresh : Attest.Fresh) (run_id : Text) (w : World)
    → ((submit_attestation submit p read fresh run_id w).1.submitted ≡ w.submitted)
      ⊎ ((c : AttestationCommitment) × ((submit_attestation submit p read fresh run_id
              w).1.submitted
            ≡ c ∷ w.submitted)
          × IsAuthorized w.db c)
unfolding submit_attestation claim_and_send
submit_attestation-IsAuthorized submit p read fresh run_id w =
    elim (Result-cases (prepare p run_id w.db)) [
      | inl (e, refused) ↦ inl (rw (submit_attestation, refused) refl)
      | inr (ready, prepared) ↦
          elim (Result-cases (
            claim_attestation_attempt w.db ready.commitment.run_id ready.approval_id
              fresh.claimed_at)) [
                | inl (e, taken) ↦
                    inl (rw (submit_attestation, prepared, claim_and_send, taken) refl)
                | inr (db, claimed) ↦ inr (
                  ready.commitment,
                  rw (submit_attestation, prepared, claim_and_send, claimed)
                      ((send-effect submit p read fresh ready (record w { db = db })).0),
                  prepare-IsAuthorized p run_id w.db ready prepared,
                )
              ]
    ]
