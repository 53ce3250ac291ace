-- ===== src/Api/Investigations.antt =====
-- backend/src/api/mod.rs: the registry of orchestrator processes, and the handler that starts them.
use aleth_os_tool_passport.Prelude.{
  ℕ, Bool, true, false, not, Option, none, some, List, [], ◌∷◌, if◌then◌else◌, Text, codes, ◌=ₜ◌,
  Result, ok, err, format, says, any, keep,
}
use aleth_os_tool_passport.Domain.RunEvent.{Fields, end, field, str, num, null}
use aleth_os_tool_passport.Errors.{invalid_request}
use aleth_os_tool_passport.Api.Failure.{ApiError, answer, from_service}

-- `active_run_ids`, a HashSet; the runs of the processes that a task waits for; and the runs of
-- those whose `child.wait()` failed, which nobody waits for any more
pub record Investigations : Type 0 where
  pub active_run_ids : List Text
  pub processes : List Text
  pub abandoned : List Text

-- `HashSet::insert`, which says whether the run was new
unfoldable pub claim : Text → List Text → Bool × List Text
claim run_id active =
    if any (λ r. r =ₜ run_id) active then (false, active) else (true, run_id ∷ active)

-- `HashSet::remove`
unfoldable pub release : Text → List Text → List Text
release run_id active = keep (λ r. not (r =ₜ run_id)) active

-- The handler from the claim on, for a run that was found. `spawned` is the result of
-- `Command::spawn`: the process ID, if the child still has one, or the error text.
unfoldable pub launch_investigation :
    Text → Result Text (Option ℕ) → Investigations → Result ApiError Fields × Investigations
launch_investigation run_id spawned s =
    let claimed = claim run_id s.active_run_ids in
    if claimed.0
    then elim spawned [
      | err error ↦ (
        err (
            from_service
              (invalid_request (format "failed to launch orchestrator: {error}" (error ∷ [])))),
        record s { active_run_ids = release run_id claimed.1 },
      )
      | ok pid ↦ (
        ok (
            field (codes "status") (str (codes "launched")) (
              field (codes "mode") (str (codes "start_or_resume")) (
                field (codes "run_id") (str run_id)
                  (field (codes "pid") (elim pid [ none ↦ null | some n ↦ num n ]) end)))),
        record s { active_run_ids = claimed.1; processes = run_id ∷ s.processes },
      )
    ]
    else (
      err (
          answer 409 "investigation_already_running"
            (says "an investigation process is already active for this run")
            (field (codes "run_id") (str run_id) end)),
      s,
    )

-- one entry of the list leaves it
pub data Leaves (r : Text) : List Text → List Text → Type 0 where
  here : {rs : List Text} → Leaves r (r ∷ rs) rs
  there : {s : Text} {rs left : List Text} → Leaves r rs left → Leaves r (s ∷ rs) (s ∷ left)

-- A launch; the two outcomes of `child.wait()`, both of which release the run: the process has
-- ended, or the call failed and the process may still run; and the end of such a process.
pub data Step : Investigations → Investigations → Type 0 where
  launch :
      {s : Investigations} (run_id : Text) (spawned : Result Text (Option ℕ))
      → Step s (launch_investigation run_id spawned s).1
  waited :
      {s : Investigations} {left : List Text} (run_id : Text)
      → Leaves run_id s.processes left
      → Step s (record s { active_run_ids = release run_id s.active_run_ids; processes = left })
  wait_failed :
      {s : Investigations} {left : List Text} (run_id : Text)
      → Leaves run_id s.processes left
      → Step s (record {
        active_run_ids = release run_id s.active_run_ids;
        processes = left;
        abandoned = run_id ∷ s.abandoned;
      })
  ended :
      {s : Investigations} {left : List Text} (run_id : Text)
      → Leaves run_id s.abandoned left
      → Step s (record s { abandoned = left })

pub data Reaches : Investigations → Investigations → Type 0 where
  rest : {s : Investigations} → Reaches s s
  more : {s t u : Investigations} → Reaches s t → Step t u → Reaches s u
