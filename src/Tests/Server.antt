-- ===== src/Tests/Server.antt =====
-- Responses, and launches of investigations.
use aleth_os_tool_passport.Prelude.{
  ◌+◌, ◌≤◌, ◌≡◌, refl, [], ◌∷◌, ◌||◌, some, ◌==◌, if◌then◌else◌, codes, ok, ends_with,
}
use aleth_os_tool_passport.Errors.{run_not_found}
use aleth_os_tool_passport.Api.Failure.{internal_error, from_service}
use aleth_os_tool_passport.Api.Responses.{is_internal, from_service-classes}
use aleth_os_tool_passport.Api.Investigations.{
  Investigations, claim, release, launch_investigation, Leaves, here, launch, wait_failed, Reaches,
  rest, more,
}
use aleth_os_tool_passport.Api.Processes.{processes_of, idle, failed_waits, processes_bounds}

from_service-classes_example :
    (from_service run_not_found
      ≡ (if is_internal run_not_found then internal_error else from_service run_not_found))
    × (((from_service run_not_found).status == 500) ≡ is_internal run_not_found)
    × (((from_service run_not_found).status == 404)
        ≡ ends_with (codes "_not_found") (from_service run_not_found).code)
    × (((from_service run_not_found).status == 409) ≡ (
        ends_with (codes "_conflict") (from_service run_not_found).code
        || ends_with (codes "_exist") (from_service run_not_found).code
        || ends_with (codes "_exists") (from_service run_not_found).code
        || ends_with (codes "_frozen") (from_service run_not_found).code
        || ends_with (codes "_claimed") (from_service run_not_found).code))
from_service-classes_example = from_service-classes run_not_found

abbrev once : Investigations
once = (launch_investigation (codes "a") (ok (some 9)) idle).1

once_gone : Leaves (codes "a") once.processes []
unfolding launch_investigation claim
once_gone = here

abbrev lost : Investigations
lost = record {
  active_run_ids = release (codes "a") once.active_run_ids;
  processes = [];
  abandoned = codes "a" ∷ once.abandoned;
}

abbrev twice : Investigations
twice = (launch_investigation (codes "a") (ok (some 10)) lost).1

abbrev launched : Reaches idle once
launched = more rest (launch (codes "a") (ok (some 9)))

-- the wait fails, and a second process is launched
abbrev two_launches : Reaches idle twice
two_launches =
    more (more launched (wait_failed {s = once} (codes "a") once_gone))
      (launch (codes "a") (ok (some 10)))

processes_bounds_example :
    processes_of (codes "a") twice.processes + processes_of (codes "a") twice.abandoned
    ≤ 1 + failed_waits (codes "a") two_launches
processes_bounds_example = processes_bounds twice (codes "a") two_launches

two_processes :
    (processes_of (codes "a") twice.processes ≡ 1) × (processes_of (codes "a") twice.abandoned ≡ 1)
unfolding launch_investigation claim release
two_processes = (refl, refl)
