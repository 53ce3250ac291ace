-- ===== src/Service/Listings.antt =====
-- The reads of runs, events and the latest results in backend/src/services/mod.rs.
use aleth_os_tool_passport.Prelude.{Option, List, Text, Result, ok, ◌>>=◌, ◌>>◌, ok_or}
use aleth_os_tool_passport.Platform.{Platform}
use aleth_os_tool_passport.Domain.Run.{Run}
use aleth_os_tool_passport.Domain.RunEvent.{RunEvent}
use aleth_os_tool_passport.Domain.CheckResults.{CheckResults}
use aleth_os_tool_passport.Errors.{ServiceError, run_not_found}
use aleth_os_tool_passport.Store.Events.{get_run}
use aleth_os_tool_passport.Store.Boards
use aleth_os_tool_passport.Store.Listings
use aleth_os_tool_passport.Service.{World, parse_run_id, ensure_run_exists}

pub record RunDetails : Type 0 where
  pub run : Run
  pub events : List RunEvent

unfoldable pub list_runs : Platform → World → List Run
list_runs p w = Listings.list_runs p w.db

unfoldable pub list_events_for_run : Platform → Text → World → Result ServiceError (List RunEvent)
list_events_for_run p run_id w = do
  id ← parse_run_id p run_id
  ensure_run_exists w.db id
  ok (Listings.list_events w.db id)

unfoldable pub get_latest_check_results :
    Platform → Text → World → Result ServiceError (Option CheckResults)
get_latest_check_results p run_id w = do
  id ← parse_run_id p run_id
  ensure_run_exists w.db id
  ok (Boards.get_latest_check_results w.db id)

unfoldable pub get_run_details : Platform → Text → World → Result ServiceError RunDetails
get_run_details p run_id w = do
  id ← parse_run_id p run_id
  run ← ok_or run_not_found (get_run w.db id)
  ok (record { run = run; events = Listings.list_events w.db id })
