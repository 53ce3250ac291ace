-- ===== src/Scoring/Types.antt =====
-- backend/src/services/scoring.rs: the shape of the audit catalog, and the errors of scoring.
-- Weights and points are counted in quarters: see Embedded.
use aleth_os_tool_passport.Prelude.{ℕ, Bool, Option, none, some, List, Text, Message}
use aleth_os_tool_passport.Domain.CheckResults.{
  Finding, pass, partial, fail, unknown, not_applicable,
}

pub data ScoringError : Type 0 where
  invalid_schema_version invalid_evidence_board_version : ScoringError
  duplicate_check unknown_check missing_check empty_rationale : Text → ScoringError
  duplicate_evidence_id unknown_evidence_id : Text → ℕ → ScoringError
  missing_not_applicable_reason unexpected_not_applicable_reason : Text → ScoringError
  not_applicable_approval_required : Text → ScoringError
  invalid_catalog : Message → ScoringError

pub record FindingPoints : Type 0 where
  pub pass : ℕ
  pub partial : ℕ
  pub fail : ℕ
  pub unknown : ℕ

pub record ScoringRule : Type 0 where
  pub scoring_rule_id : Text
  pub finding_points : FindingPoints
  pub not_applicable_requires_approval : Bool

pub record RatingThreshold : Type 0 where
  pub minimum_total_score : ℕ
  pub rating : Text

pub record HighRiskRatingCaps : Type 0 where
  pub partial : Text
  pub fail : Text
  pub unknown : Text

pub record RatingPolicy : Type 0 where
  pub thresholds : List RatingThreshold
  pub high_risk_rating_caps : HighRiskRatingCaps

pub record AuditStandard : Type 0 where
  pub standard_id : Text
  pub standard_version : Text
  pub dimensions : List Text
  pub scoring_rules : List ScoringRule
  pub rating_policy : RatingPolicy

pub record ProfileCheck : Type 0 where
  pub check_id : Text
  pub dimension : Text
  pub weight : ℕ
  pub high_risk : Bool
  pub scoring_rule_id : Text

pub record AuditProfile : Type 0 where
  pub profile_id : Text
  pub profile_version : Text
  pub standard_id : Text
  pub standard_version : Text
  pub checks : List ProfileCheck

-- `FindingPoints::for_finding`
unfoldable pub points_for : FindingPoints → Finding → Option ℕ
points_for p pass = some p.pass
points_for p partial = some p.partial
points_for p fail = some p.fail
points_for p unknown = some p.unknown
points_for p not_applicable = none

-- `HighRiskRatingCaps::for_finding`
unfoldable pub cap_for : HighRiskRatingCaps → Finding → Option Text
cap_for c partial = some c.partial
cap_for c fail = some c.fail
cap_for c unknown = some c.unknown
cap_for c _ = none
