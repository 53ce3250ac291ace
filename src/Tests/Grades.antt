-- ===== src/Tests/Grades.antt =====
-- Check Results on a frozen board.
use aleth_os_tool_passport.Prelude.{
  ◌≡◌, refl, true, some, [], ◌∷◌, trim, ok, is_whitespace, trim_end, trim_start,
}
use aleth_os_tool_passport.Domain.RunEvent.{as_str}
use aleth_os_tool_passport.Errors.{is_unique_violation}
use aleth_os_tool_passport.Scoring.Catalog.{load_catalog, profile_of, validate_catalog}
use aleth_os_tool_passport.Scoring.Embedded.{
  agent_framework_profile, cli_api_tool_profile, generic_profile, mcp_server_profile, standard,
}
use aleth_os_tool_passport.Scoring.Findings.{
  collect_findings, remove_finding, validate_applicability, validate_evidence_ids, validate_finding,
  validate_submission_header,
}
use aleth_os_tool_passport.Scoring.Messages.{to_string}
use aleth_os_tool_passport.Scoring.Types.{cap_for, points_for}
use aleth_os_tool_passport.Scoring.{
  add_points, cap_rating, check_result, finalize, finalize_dimension_scores, parse_rating,
  rating_for_total, score_check, score_check_results, score_checks, total_of,
}
use aleth_os_tool_passport.Store.Events.{
  canonical_input, canonical_sha256, compute_event_hash, get_run, has_length, insert_event_row,
  insert_generated_event, insert_linked, latest, linked, next_sequence_and_prev_hash, pick,
  sha256_hex, update_runs,
}
use aleth_os_tool_passport.Store.Freezes.{insert_error}
use aleth_os_tool_passport.Domain.Run.{pending}
use aleth_os_tool_passport.Domain.CheckResults.{CheckResults, arm, get_mut, parse, rating_str}
use aleth_os_tool_passport.Store.{Db, empty, has_text, insert}
use aleth_os_tool_passport.Store.Boards
use aleth_os_tool_passport.Store.Boards.{
  get_check_results, get_evidence_freeze, insert_check_results,
}
use aleth_os_tool_passport.Service.{World, generated_event, parse_run_id}
use aleth_os_tool_passport.Service.Checks.{Fresh, create_check_results, results_error, score_event}
use aleth_os_tool_passport.Service.Grounded.{IsGrounded, create_check_results-IsGrounded}
use aleth_os_tool_passport.Tests.Fixtures.{digits_only, run_at, run_id, world_of, or_else}
use aleth_os_tool_passport.Tests.Scores.{submission, nothing}
use aleth_os_tool_passport.Tests.Passports.{board}

abbrev fresh : Fresh
fresh = record { check_results_id = 70; computed_at = 9; event_id = 76; event_at = 10 }

abbrev frozen : Db
frozen = record empty {
  runs = run_at pending ∷ [];
  evidence_boards = board.evidence_board ∷ [];
  evidence_manifests = Boards.manifest_row board ∷ [];
}

abbrev graded : CheckResults × World
graded =
    or_else (nothing, world_of empty)
      (create_check_results digits_only true fresh run_id submission (world_of frozen))

graded-ok :
    create_check_results digits_only true fresh run_id submission (world_of frozen) ≡ ok graded
unfolding arm get_mut parse rating_str as_str is_unique_violation is_whitespace trim trim_end
    trim_start load_catalog profile_of validate_catalog agent_framework_profile cli_api_tool_profile
    generic_profile mcp_server_profile standard collect_findings remove_finding
    validate_applicability validate_evidence_ids validate_finding validate_submission_header
    to_string cap_for points_for add_points cap_rating check_result finalize
    finalize_dimension_scores parse_rating rating_for_total score_check score_check_results
    score_checks total_of create_check_results results_error score_event generated_event
    parse_run_id Boards.create_check_results get_evidence_freeze insert_check_results
    canonical_input canonical_sha256 compute_event_hash get_run has_length insert_event_row
    insert_generated_event insert_linked latest linked next_sequence_and_prev_hash pick sha256_hex
    update_runs insert_error has_text insert
graded-ok = refl

create_check_results-IsGrounded_example :
    IsGrounded frozen graded.0
    × (get_check_results graded.1.db graded.0.run_id graded.0.evidence_board_version
        ≡ some graded.0)
create_check_results-IsGrounded_example =
    create_check_results-IsGrounded digits_only true fresh run_id submission (world_of frozen)
      graded.1 graded.0 graded-ok
