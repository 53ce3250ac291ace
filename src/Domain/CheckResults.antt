-- ===== src/Domain/CheckResults.antt =====
-- backend/src/domain/check_results.rs: findings, scores and ratings.
-- The `f64` weights of the embedded catalog are multiples of 1/4 and its points too: a weight or a
-- number of points is counted in quarters, and a product of the two in sixteenths.
use aleth_os_tool_passport.Prelude.{
  true, false, ℕ, Bool, Option, none, some, List, [], ◌∷◌, leb, if◌then◌else◌, Text, codes, ◌=ₜ◌,
}

pub data Finding : Type 0 where
  pass partial fail unknown not_applicable : Finding

unfoldable pub as_str : Finding → Text
as_str pass = codes "pass"
as_str partial = codes "partial"
as_str fail = codes "fail"
as_str unknown = codes "unknown"
as_str not_applicable = codes "not_applicable"

pub record FindingSubmission : Type 0 where
  pub check_id : Text
  pub finding : Finding
  pub rationale : Text
  pub evidence_ids : List ℕ
  pub not_applicable_reason : Option Text

pub record CheckResultsSubmission : Type 0 where
  pub check_results_schema_version : Text
  pub evidence_board_version : ℕ
  pub findings : List FindingSubmission

pub data Rating : Type 0 where
  not_recommended manual_only trial low_risk core_candidate : Rating

unfoldable pub rating_str : Rating → Text
rating_str not_recommended = codes "not_recommended"
rating_str manual_only = codes "manual_only"
rating_str trial = codes "trial"
rating_str low_risk = codes "low_risk"
rating_str core_candidate = codes "core_candidate"

unfoldable pub parse : Text → Option Rating
parse value =
    if value =ₜ codes "not_recommended"
    then some not_recommended
    else if value =ₜ codes "manual_only"
    then some manual_only
    else if value =ₜ codes "trial"
    then some trial
    else if value =ₜ codes "low_risk"
    then some low_risk
    else if value =ₜ codes "core_candidate"
    then some core_candidate
    else none

-- the order that `Ord` derives
abbrev pub rank : Rating → ℕ
rank not_recommended = 0
rank manual_only = 1
rank trial = 2
rank low_risk = 3
rank core_candidate = 4

-- `Ord::min`
abbrev pub min_rating : Rating → Rating → Rating
min_rating a b = if leb (rank a) (rank b) then a else b

pub record CheckResult : Type 0 where
  pub check_id : Text
  pub dimension : Text
  pub finding : Finding
  pub rationale : Text
  pub evidence_ids : List ℕ
  pub not_applicable_reason : Option Text
  pub weight : ℕ
  pub high_risk : Bool
  pub scoring_rule_id : Text
  pub rule_points : ℕ
  pub weighted_points : ℕ
  pub applicable : Bool

pub record DimensionScore : Type 0 where
  pub score : ℕ
  pub earned_weighted_points : ℕ
  pub applicable_weight : ℕ

pub record DimensionScores : Type 0 where
  pub capability_clarity : DimensionScore
  pub interface_openness : DimensionScore
  pub automation_readiness : DimensionScore
  pub data_portability : DimensionScore
  pub permission_risk : DimensionScore
  pub evidence_quality : DimensionScore
  pub ecosystem_fit : DimensionScore

-- one arm of the `match` of `get_mut`, above the later ones
unfoldable pub arm : Bool → DimensionScores → Option DimensionScores → Option DimensionScores
arm true s later = some s
arm false s later = later

-- `get_mut` and a write through the reference that it returns
unfoldable pub get_mut :
    DimensionScores → Text → (DimensionScore → DimensionScore) → Option DimensionScores
get_mut s dimension f =
    arm (dimension =ₜ codes "capability_clarity")
      (record s { capability_clarity = f s.capability_clarity })
      (arm (dimension =ₜ codes "interface_openness")
        (record s { interface_openness = f s.interface_openness })
        (arm (dimension =ₜ codes "automation_readiness")
          (record s { automation_readiness = f s.automation_readiness })
          (arm (dimension =ₜ codes "data_portability")
            (record s { data_portability = f s.data_portability })
            (arm (dimension =ₜ codes "permission_risk")
              (record s { permission_risk = f s.permission_risk })
              (arm (dimension =ₜ codes "evidence_quality")
                (record s { evidence_quality = f s.evidence_quality })
                (arm (dimension =ₜ codes "ecosystem_fit")
                  (record s { ecosystem_fit = f s.ecosystem_fit }) (none)))))))

abbrev pub values : DimensionScores → List DimensionScore
values s =
    s.capability_clarity ∷ s.interface_openness ∷ s.automation_readiness ∷ s.data_portability
    ∷ s.permission_risk ∷ s.evidence_quality ∷ s.ecosystem_fit ∷ []

pub record CheckResults : Type 0 where
  pub check_results_schema_version : Text
  pub check_results_id : ℕ
  pub run_id : ℕ
  pub evidence_board_version : ℕ
  pub standard_id : Text
  pub standard_version : Text
  pub profile_id : Text
  pub profile_version : Text
  pub results : List CheckResult
  pub dimension_scores : DimensionScores
  pub total_score : ℕ
  pub rating : Rating
  pub computed_at : ℕ
