-- ===== src/Service/Once.antt =====
-- At most one submission for a run, whatever the requests and however they interleave.
use aleth_os_tool_passport.Prelude.{
  ap, ℕ, suc, ◌+◌, ◌≤◌, ◌≡◌, refl, inl, inr, subst, Bool, true, false, ◌||◌, List, [], ◌∷◌, arith,
  ◌==◌, if◌then◌else◌, Text, Result, ==→≡, Message, any, Bool-cases,
}
use aleth_os_tool_passport.Platform.{Platform}
use aleth_os_tool_passport.Domain.Approval.{AttestationCommitment}
use aleth_os_tool_passport.Store.{Db, AttemptRow}
use aleth_os_tool_passport.Store.Kept.{
  claim_attestation_attempt-adds, append_event-SameKept, create_run-SameKept,
  create_passport_freeze-SameKept,
}
use aleth_os_tool_passport.Service.Steps.{
  Site, Removed, here, there, Step, claim, deliver, stop, approve, append, start, freeze, Reaches,
  rest, more,
}
use aleth_os_tool_passport.Service.Effects.{send-effect, create_approval-effect}
use aleth_os_tool_passport.Service.Attest.{Ready}

abbrev pub count {ℓ} : {A : Type ℓ} → (A → Bool) → List A → ℕ
count test [] = 0
count test (x ∷ xs) = let rest = count test xs in if test x then suc rest else rest

-- how many requests, submissions and attempts a run has
abbrev pub pending_of : ℕ → List Ready → ℕ
pending_of id = count (λ r. r.commitment.run_id == id)

abbrev pub submissions_of : ℕ → List AttestationCommitment → ℕ
submissions_of id = count (λ c. c.run_id == id)

abbrev pub attempts_of : ℕ → List AttemptRow → ℕ
attempts_of id = count (λ a. a.run_id == id)

-- Each claim that is held or was used has its own attempt, and a run has at most one.
abbrev pub IsClaimed : Site → Type 0
IsClaimed s =
    (id : ℕ)
    → (pending_of id s.pending + submissions_of id s.world.submitted
        ≤ attempts_of id s.world.db.attestation_attempts)
      × (attempts_of id s.world.db.attestation_attempts ≤ 1)

count-none :
    (id other : ℕ) (rows : List AttemptRow)
    → any (λ a. a.run_id == id || a.approval_id == other) rows ≡ false
    → attempts_of id rows ≡ 0
count-none id other [] h = refl
count-none id other (a ∷ rows) h = ground (arith, count-none id other rows)

count-Removed :
    (id : ℕ) {r : Ready} (rs left : List Ready)
    → Removed r rs left
    → pending_of id rs ≡ (if r.commitment.run_id == id then 1 else 0) + pending_of id left
count-Removed id _ _ (here {rs}) = ground arith
count-Removed id _ _ (there {s} {rs} {left} x) = let e = count-Removed id rs left x in ground arith

IsClaimed-claim :
    (id : ℕ) (pending : List Ready) (sent : List AttestationCommitment) (old new : List AttemptRow)
    (ready : Ready) (other now : ℕ)
    → (pending_of id pending + submissions_of id sent ≤ attempts_of id old)
      × (attempts_of id old ≤ 1)
    → new ≡ record { run_id = ready.commitment.run_id; approval_id = other; claimed_at = now } ∷ old
    → any (λ a. a.run_id == ready.commitment.run_id || a.approval_id == other) old ≡ false
    → (pending_of id (ready ∷ pending) + submissions_of id sent ≤ attempts_of id new)
      × (attempts_of id new ≤ 1)
IsClaimed-claim id pending sent old new ready other now h e free =
    elim (Bool-cases (ready.commitment.run_id == id)) [
      | inl same ↦
          let none_yet : attempts_of id old ≡ 0 = count-none id other old (
            subst (λ i. any (λ a. a.run_id == i || a.approval_id == other) old ≡ false)
              (==→≡ _ _ same) free) in
          rw e (ground arith)
      | inr apart ↦ rw e (ground arith)
    ]

module _ (submit : AttestationCommitment → Result Message Text) (p : Platform) where
  Step-IsClaimed : {s t : Site} → Step submit p s t → IsClaimed s → IsClaimed t
  Step-IsClaimed (claim {pending} {w} {db} ready now h) c = λ id.
      let (added, free) =
        claim_attestation_attempt-adds w.db db ready.commitment.run_id ready.approval_id now h in
      IsClaimed-claim id pending w.submitted w.db.attestation_attempts db.attestation_attempts ready
        ready.approval_id now (c id) added free
  Step-IsClaimed (deliver {pending} {left} {w} read fresh ready out) c = λ id.
      let (sent, same) = send-effect submit p read fresh ready w in
      let e = count-Removed id pending left out in let h = c id in rw (sent, same) (ground arith)
  Step-IsClaimed (stop {pending} {w}) c = λ id. let h = c id in ground arith
  Step-IsClaimed (approve {pending} {w} {w'} read fresh run_id request h) c = λ id.
      let (sent, same) = create_approval-effect p read fresh run_id request w w' h in
      rw (sent, same) (c id)
  Step-IsClaimed (append {pending} {w} {db} read event expected status place h) c = λ id.
      rw (ap (λ t. t.0) (append_event-SameKept p read w.db db event expected status place h)) (c id)
  Step-IsClaimed (start {pending} {w} {db} run event h) c =
      λ id. rw (ap (λ t. t.0) (create_run-SameKept p true w.db db run event h)) (c id)
  Step-IsClaimed (freeze {pending} {w} {db} read passport provenance event h) c = λ id.
      rw
        (ap (λ t. t.0) (create_passport_freeze-SameKept p read w.db db passport provenance event h))
        (c id)

  Reaches-IsClaimed : {s t : Site} → Reaches submit p s t → IsClaimed s → IsClaimed t
  Reaches-IsClaimed rest c = c
  Reaches-IsClaimed (more before step) c = Step-IsClaimed step (Reaches-IsClaimed before c)

abbrev pub no_requests : Db → Site
no_requests db = record {
  pending = [];
  world = record { db = db; submitted = []; broadcasts = []; files = [] };
}

-- If the server starts on a database without attestation attempts and with no requests, then after
-- any interleaving of claims (each for any result of the reads before it, however old), sends of
-- requests that hold a claim, restarts, approvals, appended events, new runs and Passport freezes,
-- at most one commitment with a given run ID was handed to the submitter.
pub submissions_bounds :
    (submit : AttestationCommitment → Result Message Text) (p : Platform) (db : Db) (s : Site)
    (id : ℕ)
    → db.attestation_attempts ≡ []
    → Reaches submit p (no_requests db) s
    → submissions_of id s.world.submitted ≤ 1
submissions_bounds submit p db s id none_yet steps =
    let no_requests-IsClaimed : IsClaimed (no_requests db) = λ i. rw none_yet (ground arith) in
    let c = Reaches-IsClaimed submit p steps no_requests-IsClaimed id in omega (arith, c.0, c.1)
