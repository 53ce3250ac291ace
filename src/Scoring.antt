-- ===== src/Scoring.antt =====
-- backend/src/services/scoring.rs: scores and the rating.
use aleth_os_tool_passport.Prelude.{
  String, ℕ, zero, suc, ◌+◌, ◌-◌, ◌*◌, ◌/◌, ◌%◌, ◌^◌, ◌≤◌, ◌<◌, min, ◌≡◌, refl, ◌≢◌, ◌⊎◌, inl, inr,
  Bool, true, false, not, ◌&&◌, ◌||◌, Option, none, some, List, [], ◌∷◌, ◌++◌, map, arith, ltb, leb,
  ◌==◌, if◌then◌else◌, Text, codes, ◌=ₜ◌, =ₜ_iff, =ₜ_refl, is_empty, trim, Result, ok, err, ap,
  ==→≡, >>=-eq-ok, ◌>>=◌, ◌>>◌, refuse, ok_or, map_err, Message, format, says, All, any, all, find,
  find_last, keep, length, head?, is_some, Bool-cases, Option-cases,
}
pub mod Types
pub mod Embedded
pub mod Catalog
pub mod Messages
pub mod Findings
pub mod Steps
pub mod Bounds
pub mod Caps
pub mod Coverage
use aleth_os_tool_passport.Domain.Run.{AuditBinding}
use aleth_os_tool_passport.Domain.CheckResults
use aleth_os_tool_passport.Domain.CheckResults.{
  Finding, pass, partial, fail, unknown, not_applicable, FindingSubmission, CheckResultsSubmission,
  CheckResult, DimensionScore, DimensionScores, values, Rating, min_rating, get_mut,
}
use aleth_os_tool_passport.Scoring.Types.{
  ScoringError, invalid_schema_version, invalid_evidence_board_version, duplicate_check,
  unknown_check, missing_check, empty_rationale, duplicate_evidence_id, unknown_evidence_id,
  missing_not_applicable_reason, unexpected_not_applicable_reason, not_applicable_approval_required,
  invalid_catalog, ScoringRule, RatingPolicy, HighRiskRatingCaps, AuditStandard, AuditProfile,
  ProfileCheck, points_for, cap_for,
}
use aleth_os_tool_passport.Scoring.Catalog.{load_catalog, validate_catalog}
use aleth_os_tool_passport.Scoring.Findings.{
  validate_submission_header, validate_finding, collect_findings, remove_finding, is_not_applicable,
}

-- What the body of the second loop pushes; points count quarters, their products sixteenths.
unfoldable pub check_result : ProfileCheck → ScoringRule → FindingSubmission → CheckResult
check_result check rule finding =
    let applicable = not (is_not_applicable finding.finding) in
    let rule_points : ℕ = elim (points_for rule.finding_points finding.finding) [
      | none ↦ 0
      | some n ↦ n
    ] in
    record {
      check_id = check.check_id;
      dimension = check.dimension;
      finding = finding.finding;
      rationale = finding.rationale;
      evidence_ids = finding.evidence_ids;
      not_applicable_reason = finding.not_applicable_reason;
      weight = check.weight;
      high_risk = check.high_risk;
      scoring_rule_id = check.scoring_rule_id;
      rule_points = rule_points;
      weighted_points = if applicable then check.weight * rule_points else 0;
      applicable = applicable;
    }

-- `if applicable { … }`
unfoldable pub add_points : CheckResult → DimensionScore → DimensionScore
add_points result score =
    if result.applicable
    then record score {
      earned_weighted_points = score.earned_weighted_points + result.weighted_points;
      applicable_weight = score.applicable_weight + result.weight;
    }
    else score

module _ (rules : List ScoringRule) (available : List ℕ) (approved : List Text) where
  -- one round of the second loop
  unfoldable pub score_check :
      ProfileCheck
      → FindingSubmission
      → DimensionScores
      → Result ScoringError (CheckResult × DimensionScores)
  score_check check finding scores = do
    rule ←
        ok_or
          (invalid_catalog (
            format "check {} references unknown scoring rule {}"
              (check.check_id ∷ check.scoring_rule_id ∷ [])))
          (find_last (λ r. r.scoring_rule_id =ₜ check.scoring_rule_id) rules)
    validate_finding finding available approved rule
    scores' ←
        ok_or
          (invalid_catalog (
            format "check {} references unsupported dimension {}"
              (check.check_id ∷ check.dimension ∷ [])))
          (get_mut scores check.dimension (add_points (check_result check rule finding)))
    ok (check_result check rule finding, scores')

  unfoldable pub score_checks :
      List ProfileCheck
      → List FindingSubmission
      → DimensionScores
      → Result ScoringError (List CheckResult × DimensionScores)
  score_checks [] found scores = ok ([], scores)
  score_checks (check ∷ checks) found scores = do
    (finding, left) ← ok_or (missing_check check.check_id) (remove_finding check.check_id found)
    (result, scores') ← score_check check finding scores
    (results, total) ← score_checks checks left scores'
    ok (result ∷ results, total)

abbrev no_points : DimensionScore
no_points = record { score = 0; earned_weighted_points = 0; applicable_weight = 0 }

abbrev pub no_scores : DimensionScores
no_scores = record {
  capability_clarity = no_points;
  interface_openness = no_points;
  automation_readiness = no_points;
  data_portability = no_points;
  permission_risk = no_points;
  evidence_quality = no_points;
  ecosystem_fit = no_points;
}

-- `(5.0 * earned / weight).floor() as u8`, which saturates. With earned points E / 16 and weight
-- W / 4 the quotient is 5 E / (4 W).
unfoldable pub finalize : DimensionScore → DimensionScore
finalize d = record d {
  score =
      if d.applicable_weight == 0
      then 0
      else min 255 (5 * d.earned_weighted_points / (4 * d.applicable_weight));
}

unfoldable pub finalize_dimension_scores : DimensionScores → DimensionScores
finalize_dimension_scores s = record {
  capability_clarity = finalize s.capability_clarity;
  interface_openness = finalize s.interface_openness;
  automation_readiness = finalize s.automation_readiness;
  data_portability = finalize s.data_portability;
  permission_risk = finalize s.permission_risk;
  evidence_quality = finalize s.evidence_quality;
  ecosystem_fit = finalize s.ecosystem_fit;
}

abbrev sum_u16 : List DimensionScore → ℕ
sum_u16 [] = 0
sum_u16 (d ∷ ds) = (d.score + sum_u16 ds) % 65536

unfoldable pub total_of : DimensionScores → ℕ
total_of scores = sum_u16 (values scores) * 20 % 65536 / 7 % 256

unfoldable pub parse_rating : Text → Result ScoringError Rating
parse_rating value =
    ok_or (invalid_catalog (format "unknown rating {}" (value ∷ []))) (CheckResults.parse value)

unfoldable pub rating_for_total : RatingPolicy → ℕ → Result ScoringError Rating
rating_for_total policy total = do
  threshold ←
      ok_or (invalid_catalog (says "rating thresholds must start at zero"))
        (find_last (λ t. leb t.minimum_total_score total) policy.thresholds)
  parse_rating threshold.rating

-- the loop that caps the rating
unfoldable pub cap_rating :
    HighRiskRatingCaps → Rating → List CheckResult → Result ScoringError Rating
cap_rating caps rating [] = ok rating
cap_rating caps rating (result ∷ results) =
    elim (if result.high_risk then cap_for caps result.finding else none) [
      | none ↦ cap_rating caps rating results
      | some cap ↦ (do limit ← parse_rating cap; cap_rating caps (min_rating rating limit) results)
    ]

-- `check_results_id` is the result of `Uuid::new_v4`.
unfoldable pub score_check_results :
    ℕ
    → AuditBinding
    → CheckResultsSubmission
    → List ℕ
    → List Text
    → ℕ
    → ℕ
    → Result ScoringError CheckResults.CheckResults
score_check_results run_id binding submission available approved check_results_id computed_at = do
  validate_submission_header submission
  (standard, profile) ← load_catalog binding
  validate_catalog standard profile
  found ← collect_findings profile.checks [] submission.findings
  (results, scores) ←
      score_checks standard.scoring_rules available approved profile.checks found no_scores
  let final = finalize_dimension_scores scores
  uncapped ← rating_for_total standard.rating_policy (total_of final)
  rating ← cap_rating standard.rating_policy.high_risk_rating_caps uncapped results
  ok (record {
    check_results_schema_version = codes "0.1.0";
    check_results_id = check_results_id;
    run_id = run_id;
    evidence_board_version = submission.evidence_board_version;
    standard_id = standard.standard_id;
    standard_version = standard.standard_version;
    profile_id = profile.profile_id;
    profile_version = profile.profile_version;
    results = results;
    dimension_scores = final;
    total_score = total_of final;
    rating = rating;
    computed_at = computed_at;
  })
