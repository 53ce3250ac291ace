-- ===== src/Api/Processes.antt =====
-- How many orchestrator processes a run can have.
use aleth_os_tool_passport.Prelude.{
  ℕ, ◌+◌, ◌≤◌, ◌≡◌, refl, inl, inr, subst, sym, ap, Bool, true, false, Option, List, [], ◌∷◌, arith,
  if◌then◌else◌, Text, ◌=ₜ◌, =ₜ→≡, Result, ok, err, Result-cases, any, Bool-cases,
}
use aleth_os_tool_passport.Api.Investigations.{
  Investigations, claim, release, launch_investigation, Leaves, here, there, Step, launch, waited,
  wait_failed, ended, Reaches, rest, more,
}
use aleth_os_tool_passport.Service.Once.{count}

abbrev pub is_active : Text → List Text → Bool
is_active id active = any (λ r. r =ₜ id) active

abbrev pub processes_of : Text → List Text → ℕ
processes_of id = count (λ r. r =ₜ id)

-- a process that a task waits for has its run in the registry, and is the only such one
abbrev pub IsRegistered : Investigations → Type 0
IsRegistered s =
    (id : Text) → processes_of id s.processes ≤ (if is_active id s.active_run_ids then 1 else 0)

Leaves-count :
    (id run_id : Text) (rs left : List Text)
    → Leaves run_id rs left
    → processes_of id rs ≡ (if run_id =ₜ id then 1 else 0) + processes_of id left
Leaves-count id run_id _ _ (here {rs}) = ground arith
Leaves-count id run_id _ _ (there {s} {rs} {left} x) =
    let e = Leaves-count id run_id rs left x in ground arith

release-is_active :
    (id run_id : Text) (active : List Text)
    → (run_id =ₜ id) ≡ false
    → is_active id (release run_id active) ≡ is_active id active
unfolding release
release-is_active id run_id [] h = refl
release-is_active id run_id (r ∷ active) h =
    let rest = release-is_active id run_id active h in
    elim (Bool-cases (r =ₜ run_id)) [
      | inl same ↦
          let e : r ≡ run_id = =ₜ→≡ r run_id same in
          let other : (r =ₜ id) ≡ false = rw e h in ground arith
      | inr apart ↦ ground arith
    ]

-- the three outcomes of a launch
refused-launch :
    (s : Investigations) (run_id : Text) (spawned : Result Text (Option ℕ))
    → is_active run_id s.active_run_ids ≡ true
    → (launch_investigation run_id spawned s).1 ≡ s
unfolding launch_investigation claim
refused-launch s run_id spawned busy = rw (launch_investigation, claim, busy) refl

failed-launch :
    (s : Investigations) (run_id error : Text)
    → is_active run_id s.active_run_ids ≡ false
    → (launch_investigation run_id (err error) s).1
      ≡ record s { active_run_ids = release run_id (run_id ∷ s.active_run_ids) }
unfolding launch_investigation claim
failed-launch s run_id error free = rw (launch_investigation, claim, free) refl

started-launch :
    (s : Investigations) (run_id : Text) (pid : Option ℕ)
    → is_active run_id s.active_run_ids ≡ false
    → (launch_investigation run_id (ok pid) s).1
      ≡ record s { active_run_ids = run_id ∷ s.active_run_ids; processes = run_id ∷ s.processes }
unfolding launch_investigation claim
started-launch s run_id pid free = rw (launch_investigation, claim, free) refl

failed-IsRegistered :
    (s : Investigations) (run_id : Text)
    → is_active run_id s.active_run_ids ≡ false
    → IsRegistered s
    → IsRegistered (record s { active_run_ids = release run_id (run_id ∷ s.active_run_ids) })
failed-IsRegistered s run_id free c id = elim (Bool-cases (run_id =ₜ id)) [
  | inl same ↦
      let none_yet : is_active id s.active_run_ids ≡ false =
        subst (λ i. is_active i s.active_run_ids ≡ false) (=ₜ→≡ run_id id same) free in
      let h = c id in ground arith
  | inr apart ↦
      let h = c id in
      let e = release-is_active id run_id (run_id ∷ s.active_run_ids) apart in ground arith
]

started-IsRegistered :
    (s : Investigations) (run_id : Text)
    → is_active run_id s.active_run_ids ≡ false
    → IsRegistered s
    → IsRegistered
        (record s { active_run_ids = run_id ∷ s.active_run_ids; processes = run_id ∷ s.processes })
started-IsRegistered s run_id free c id = elim (Bool-cases (run_id =ₜ id)) [
  | inl same ↦
      let none_yet : is_active id s.active_run_ids ≡ false =
        subst (λ i. is_active i s.active_run_ids ≡ false) (=ₜ→≡ run_id id same) free in
      let h = c id in ground arith
  | inr apart ↦ let h = c id in ground arith
]

launch-IsRegistered :
    (s : Investigations) (run_id : Text) (spawned : Result Text (Option ℕ))
    → IsRegistered s
    → IsRegistered (launch_investigation run_id spawned s).1
launch-IsRegistered s run_id spawned c = elim (Bool-cases (is_active run_id s.active_run_ids)) [
  | inl busy ↦ subst IsRegistered (sym (refused-launch s run_id spawned busy)) c
  | inr free ↦ elim (Result-cases spawned) [
    | inl (error, e) ↦ rw e (
        subst IsRegistered (sym (failed-launch s run_id error free))
          (failed-IsRegistered s run_id free c))
    | inr (pid, e) ↦ rw e (
        subst IsRegistered (sym (started-launch s run_id pid free))
          (started-IsRegistered s run_id free c))
  ]
]

released-IsRegistered :
    (s : Investigations) (left abandoned : List Text) (run_id : Text)
    → Leaves run_id s.processes left
    → IsRegistered s
    → IsRegistered (record {
      active_run_ids = release run_id s.active_run_ids;
      processes = left;
      abandoned = abandoned;
    })
released-IsRegistered s left abandoned run_id out c id =
    let h = c id in
    let e = Leaves-count id run_id s.processes left out in
    elim (Bool-cases (run_id =ₜ id)) [
      | inl same ↦ ground arith
      | inr apart ↦ let r = release-is_active id run_id s.active_run_ids apart in ground arith
    ]

Step-IsRegistered : {s t : Investigations} → Step s t → IsRegistered s → IsRegistered t
Step-IsRegistered (launch {s} run_id spawned) c = launch-IsRegistered s run_id spawned c
Step-IsRegistered (waited {s} {left} run_id out) c =
    released-IsRegistered s left s.abandoned run_id out c
Step-IsRegistered (wait_failed {s} {left} run_id out) c =
    released-IsRegistered s left (run_id ∷ s.abandoned) run_id out c
Step-IsRegistered (ended {s} {left} run_id out) c = c

Reaches-IsRegistered : {s t : Investigations} → Reaches s t → IsRegistered s → IsRegistered t
Reaches-IsRegistered rest c = c
Reaches-IsRegistered (more before step) c = Step-IsRegistered step (Reaches-IsRegistered before c)

-- how often the wait for a process of the run failed
abbrev pub failed_in : {s t : Investigations} → Text → Step s t → ℕ
failed_in id (launch run_id spawned) = 0
failed_in id (waited run_id out) = 0
failed_in id (wait_failed run_id out) = if run_id =ₜ id then 1 else 0
failed_in id (ended run_id out) = 0

abbrev pub failed_waits : {s t : Investigations} → Text → Reaches s t → ℕ
failed_waits id rest = 0
failed_waits id (more before step) = failed_in id step + failed_waits id before

launch-abandoned :
    (s : Investigations) (run_id : Text) (spawned : Result Text (Option ℕ))
    → (launch_investigation run_id spawned s).1.abandoned ≡ s.abandoned
launch-abandoned s run_id spawned = elim (Bool-cases (is_active run_id s.active_run_ids)) [
  | inl busy ↦ ap (λ t. t.abandoned) (refused-launch s run_id spawned busy)
  | inr free ↦ elim (Result-cases spawned) [
    | inl (error, e) ↦ rw e (ap (λ t. t.abandoned) (failed-launch s run_id error free))
    | inr (pid, e) ↦ rw e (ap (λ t. t.abandoned) (started-launch s run_id pid free))
  ]
]

Step-abandoned :
    {s t : Investigations} (id : Text) (step : Step s t)
    → processes_of id t.abandoned ≤ failed_in id step + processes_of id s.abandoned
Step-abandoned id (launch {s} run_id spawned) =
    let e = launch-abandoned s run_id spawned in rw e (ground arith)
Step-abandoned id (waited run_id out) = ground arith
Step-abandoned id (wait_failed run_id out) = ground arith
Step-abandoned id (ended {s} {left} run_id out) =
    let e = Leaves-count id run_id s.abandoned left out in ground arith

-- the registry of a server that has started
abbrev pub idle : Investigations
idle = record { active_run_ids = []; processes = []; abandoned = [] }

Reaches-abandoned :
    {s t : Investigations} (id : Text) (steps : Reaches s t)
    → processes_of id t.abandoned ≤ failed_waits id steps + processes_of id s.abandoned
Reaches-abandoned id rest = ground arith
Reaches-abandoned id (more before step) =
    let h = Reaches-abandoned id before in let k = Step-abandoned id step in ground arith

-- After any sequence of launches, of waits for a process that return or fail, and of ends of
-- processes that nobody waits for, from an idle server: the processes of a run that may be running
-- are at most one more than the waits for a process of this run that failed. So there is at most
-- one as long as no wait fails.
pub processes_bounds :
    (s : Investigations) (id : Text) (steps : Reaches idle s)
    → processes_of id s.processes + processes_of id s.abandoned ≤ 1 + failed_waits id steps
processes_bounds s id steps =
    let h = Reaches-IsRegistered steps (λ i. ground arith) id in
    let k = Reaches-abandoned id steps in
    elim (Bool-cases (is_active id s.active_run_ids)) [
      | inl yes_active ↦ ground arith
      | inr not_active ↦ ground arith
    ]
