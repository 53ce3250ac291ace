-- ===== src/Service/Checks.antt =====
-- `create_check_results` in backend/src/services/mod.rs.
use aleth_os_tool_passport.Prelude.{
  ℕ, Bool, [], ◌∷◌, ◌++◌, Text, codes, Result, ok, ◌>>=◌, ok_or, map_err, format,
}
use aleth_os_tool_passport.Platform.{Platform}
use aleth_os_tool_passport.Domain.RunEvent.{RunEvent, score_changed, num, str, field, end}
use aleth_os_tool_passport.Domain.CheckResults.{CheckResults, CheckResultsSubmission, rating_str}
use aleth_os_tool_passport.Errors.{
  RepositoryError, unique_violation, ServiceError, run_not_found, invalid_request,
  check_results_already_exist, repository,
}
use aleth_os_tool_passport.Store.Events.{get_run}
use aleth_os_tool_passport.Store.Boards
use aleth_os_tool_passport.Store.Boards.{insert_check_results, get_check_results}
use aleth_os_tool_passport.Scoring.{score_check_results}
use aleth_os_tool_passport.Scoring.Messages.{to_string}
use aleth_os_tool_passport.Service.{World, parse_run_id, generated_event}
use aleth_os_tool_passport.Service.Requests.{decimal}

pub record Fresh : Type 0 where
  pub check_results_id : ℕ
  pub computed_at : ℕ
  pub event_id : ℕ
  pub event_at : ℕ

unfoldable pub score_event : Platform → Fresh → CheckResults → RunEvent
score_event p fresh r = generated_event fresh.event_id fresh.event_at r.run_id score_changed (
    field (codes "check_results_id") (str (p.uuid_text r.check_results_id)) (
      field (codes "evidence_board_version") (num r.evidence_board_version) (
        field (codes "profile_id") (str (r.profile_id ++ codes "@" ++ r.profile_version)) (
          field (codes "standard_id") (str (r.standard_id ++ codes "@" ++ r.standard_version)) (
            field (codes "total_score") (num r.total_score)
              (field (codes "rating") (str (rating_str r.rating)) end))))))

unfoldable pub results_error : RepositoryError → ServiceError
results_error unique_violation = check_results_already_exist
results_error other = repository other

abbrev pub not_frozen : ℕ → ServiceError
not_frozen version =
    invalid_request (format "evidence board version {} is not frozen" (decimal version ∷ []))

-- No check is approved as not applicable: the set is empty.
unfoldable pub create_check_results :
    Platform
    → Bool
    → Fresh
    → Text
    → CheckResultsSubmission
    → World
    → Result ServiceError (CheckResults × World)
create_check_results p read fresh run_id submission w = do
  id ← parse_run_id p run_id
  run ← ok_or run_not_found (get_run w.db id)
  freeze ←
      ok_or (not_frozen submission.evidence_board_version)
        (Boards.get_evidence_freeze w.db id submission.evidence_board_version)
  results ←
      map_err (λ e. invalid_request (to_string p e))
        (score_check_results id run.audit_binding submission freeze.evidence_board.evidence_ids []
          fresh.check_results_id fresh.computed_at)
  let event = score_event p fresh results
  (results', db) ← map_err results_error (Boards.create_check_results p read w.db results event)
  ok (results', record w { db = db; broadcasts = event ∷ w.broadcasts })
