-- ===== src/Tests/Scores.antt =====
-- One submission that passes every check of the generic profile but one.
use aleth_os_tool_passport.Prelude.{
  ◌≤◌, ◌≡◌, refl, none, [], ◌∷◌, map, if◌then◌else◌, codes, trim, Result, ok, err, All,
}
use aleth_os_tool_passport.Domain.Run.{AuditBinding}
use aleth_os_tool_passport.Domain.CheckResults
use aleth_os_tool_passport.Domain.CheckResults.{
  CheckResults, pass, partial, FindingSubmission, CheckResultsSubmission, DimensionScores,
  DimensionScore, arm, get_mut,
}
use aleth_os_tool_passport.Domain.Tool
use aleth_os_tool_passport.Domain.Tool.{generic}
use aleth_os_tool_passport.Scoring.Types.{
  ScoringError, ProfileCheck, AuditProfile, points_for, cap_for,
}
use aleth_os_tool_passport.Scoring.Embedded.{standard, generic_profile}
use aleth_os_tool_passport.Scoring.Catalog.{
  profile_of, load_catalog, current_audit_binding, validate_catalog,
}
use aleth_os_tool_passport.Scoring.Findings.{
  validate_submission_header, validate_evidence_ids, validate_applicability, validate_finding,
  collect_findings, remove_finding,
}
use aleth_os_tool_passport.Scoring.{
  check_result, add_points, score_check, score_checks, finalize, finalize_dimension_scores,
  total_of, parse_rating, rating_for_total, cap_rating, score_check_results, no_scores,
}
use aleth_os_tool_passport.Scoring.Bounds.{AllScores, score_check_results_bounds}
use aleth_os_tool_passport.Scoring.Caps.{WithinCap, score_check_results-WithinCap}
use aleth_os_tool_passport.Scoring.Coverage.{IsSound, score_check_results-IsSound}

abbrev binding : AuditBinding
binding = current_audit_binding generic

abbrev finding_for : ProfileCheck → FindingSubmission
finding_for c = record {
  check_id = c.check_id;
  finding = if c.high_risk then partial else pass;
  rationale = codes "read in the docs";
  evidence_ids = 7 ∷ 8 ∷ [];
  not_applicable_reason = none;
}

abbrev pub submission : CheckResultsSubmission
submission = record {
  check_results_schema_version = codes "0.1.0";
  evidence_board_version = 1;
  findings = map finding_for generic_profile.checks;
}

abbrev pub nothing : CheckResults
nothing = record {
  check_results_schema_version = [];
  check_results_id = 0;
  run_id = 0;
  evidence_board_version = 0;
  standard_id = [];
  standard_version = [];
  profile_id = [];
  profile_version = [];
  results = [];
  dimension_scores = no_scores;
  total_score = 0;
  rating = CheckResults.not_recommended;
  computed_at = 0;
}

abbrev scored_or : CheckResults → Result ScoringError CheckResults → CheckResults
scored_or d (ok out) = out
scored_or d (err e) = d

abbrev pub out : CheckResults
out = scored_or nothing (score_check_results 65 binding submission (7 ∷ 8 ∷ 9 ∷ []) [] 100 3)

out-ok : score_check_results 65 binding submission (7 ∷ 8 ∷ 9 ∷ []) [] 100 3 ≡ ok out
unfolding score_check_results score_checks score_check check_result add_points finalize
    finalize_dimension_scores total_of parse_rating rating_for_total cap_rating
    validate_submission_header validate_evidence_ids validate_applicability validate_finding
    collect_findings remove_finding profile_of load_catalog current_audit_binding validate_catalog
    standard generic_profile points_for cap_for arm get_mut CheckResults.parse Tool.as_str trim
out-ok = refl

score_check_results_bounds_example :
    AllScores (λ d. d.score ≤ 5) out.dimension_scores × (out.total_score ≤ 100)
score_check_results_bounds_example =
    score_check_results_bounds 65 binding submission (7 ∷ 8 ∷ 9 ∷ []) [] 100 3 out out-ok

score_check_results-WithinCap_example : All (WithinCap out.rating) out.results
score_check_results-WithinCap_example =
    score_check_results-WithinCap 65 binding submission (7 ∷ 8 ∷ 9 ∷ []) [] 100 3 out out-ok

score_check_results-IsSound_example :
    All (IsSound (7 ∷ 8 ∷ 9 ∷ []) []) out.results
    × ((profile : AuditProfile) × (load_catalog binding ≡ ok (standard, profile))
        × (map (λ r. r.check_id) out.results ≡ map (λ c. c.check_id) profile.checks))
score_check_results-IsSound_example =
    score_check_results-IsSound 65 binding submission (7 ∷ 8 ∷ 9 ∷ []) [] 100 3 out out-ok
