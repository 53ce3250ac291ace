-- ===== src/Scoring/Bounds.antt =====
-- Scores stay in range: points never pass the weight, a dimension scores at most 5, a total 100.
use aleth_os_tool_passport.Prelude.{
  ℕ, ◌*◌, ◌/◌, ◌≤◌, ◌≡◌, inl, inr, subst, Bool, true, false, Option, none, some, List, [], ◌∷◌,
  arith, if◌then◌else◌, Text, ◌=ₜ◌, ok, All, find_last, Bool-cases, Option-cases,
}
use aleth_os_tool_passport.Domain.Run.{AuditBinding}
use aleth_os_tool_passport.Domain.CheckResults.{
  CheckResults, FindingSubmission, CheckResultsSubmission, CheckResult, DimensionScore,
  DimensionScores, get_mut, arm,
}
use aleth_os_tool_passport.Scoring.Types.{ScoringRule, ProfileCheck, points_for}
use aleth_os_tool_passport.Scoring.Embedded.{standard}
use aleth_os_tool_passport.Scoring.Steps.{Steps, done, next, score_check_results-Scored}
use aleth_os_tool_passport.Scoring.{
  check_result, add_points, finalize, finalize_dimension_scores, total_of, score_check_results,
}

-- Points, in sixteenths, against weights, in quarters: at most full points for each weight.
abbrev pub Balanced : DimensionScore → Type 0
Balanced d = d.earned_weighted_points ≤ 4 * d.applicable_weight

abbrev pub AllScores : (DimensionScore → Type 0) → DimensionScores → Type 0
AllScores P s =
    P s.capability_clarity
    × P s.interface_openness
    × P s.automation_readiness
    × P s.data_portability
    × P s.permission_risk
    × P s.evidence_quality
    × P s.ecosystem_fit

pub record IsFair (rule : ScoringRule) : Type 0 where
  pub pass : rule.finding_points.pass ≤ 4
  pub partial : rule.finding_points.partial ≤ 4
  pub fail : rule.finding_points.fail ≤ 4
  pub unknown : rule.finding_points.unknown ≤ 4

pub find_last-All {ℓ κ} :
    {A : Type ℓ} (P : A → Type κ) (test : A → Bool) (xs : List A) {x : A}
    → All P xs
    → find_last test xs ≡ some x
    → P x
find_last-All P test [] a h = cc
find_last-All P test (y ∷ xs) {x} a h = elim (Option-cases (find_last test xs)) [
  | inl miss ↦
      let h' : (if test y then some y else none) ≡ some x = rw miss at h in
      elim (Bool-cases (test y)) [ inl t ↦ let e : y ≡ x = cc in subst P e a.0 | inr f ↦ cc ]
  | inr (z, hit) ↦ let e : z ≡ x = cc in subst P e (find_last-All P test xs a.1 hit)
]

rules-IsFair : All IsFair standard.scoring_rules
unfolding standard
rules-IsFair = omega arith

mul-le-four : (w n : ℕ) → n ≤ 4 → w * n ≤ 4 * w
mul-le-four w n h = grind arith

add_points-Balanced :
    (check : ProfileCheck) (rule : ScoringRule) (finding : FindingSubmission) (d : DimensionScore)
    → IsFair rule
    → Balanced d
    → Balanced (add_points (check_result check rule finding) d)
unfolding add_points check_result points_for
add_points-Balanced check rule finding d fair b = ground (
  arith,
  mul-le-four check.weight rule.finding_points.pass fair.pass,
  mul-le-four check.weight rule.finding_points.partial fair.partial,
  mul-le-four check.weight rule.finding_points.fail fair.fail,
  mul-le-four check.weight rule.finding_points.unknown fair.unknown,
)

of_arm :
    (Q : DimensionScores → Type 0) (b : Bool) (x : DimensionScores) (later : Option DimensionScores)
    {z : DimensionScores}
    → arm b x later ≡ some z
    → Q x
    → (later ≡ some z → Q z)
    → Q z
unfolding arm
of_arm Q true x later {z} h here there = let e : x ≡ z = cc in subst Q e here
of_arm Q false x later h here there = there h

-- A change that keeps a property of one score keeps it of all.
get_mut-AllScores :
    (P : DimensionScore → Type 0) (s s' : DimensionScores) (dimension : Text)
    (f : DimensionScore → DimensionScore)
    → ((d : DimensionScore) → P d → P (f d))
    → get_mut s dimension f ≡ some s'
    → AllScores P s
    → AllScores P s'
unfolding get_mut
get_mut-AllScores P s s' dimension f k h (a, b, c, d, e, g, i) =
    of_arm Q _ _ _ h (k _ a, b, c, d, e, g, i)
      λ h.
        of_arm Q _ _ _ h (a, k _ b, c, d, e, g, i)
          λ h.
            of_arm Q _ _ _ h (a, b, k _ c, d, e, g, i)
              λ h.
                of_arm Q _ _ _ h (a, b, c, k _ d, e, g, i)
                  λ h.
                    of_arm Q _ _ _ h (a, b, c, d, k _ e, g, i)
                      λ h.
                        of_arm Q _ _ _ h (a, b, c, d, e, k _ g, i)
                          λ h.
                            of_arm Q _ _ none h (a, b, c, d, e, g, k _ i)
                              (λ (e : ◌≡◌ {A = Option DimensionScores} none (some s')).
                                absurd (ground arith))
  where
    Q : DimensionScores → Type 0
    Q = AllScores P

div-le-five : (a b : ℕ) → a ≤ 5 * b → a / b ≤ 5
div-le-five a b h = grind arith

finalize-le-five : (d : DimensionScore) → Balanced d → (finalize d).score ≤ 5
unfolding finalize
finalize-le-five d b =
    ground (arith, div-le-five (5 * d.earned_weighted_points) (4 * d.applicable_weight))

module _ (available : List ℕ) (approved : List Text) where
  -- The second loop keeps the points within the weights.
  Steps-Balanced :
      {checks : List ProfileCheck} {found : List FindingSubmission} {s end : DimensionScores}
      {rs : List CheckResult}
      → Steps standard.scoring_rules available approved checks found s rs end
      → AllScores Balanced s
      → AllScores Balanced end
  Steps-Balanced done b = b
  Steps-Balanced (next {check = check} {finding = finding} {s = s} {mid = mid} removed step rest)
        b =
      Steps-Balanced rest (
        get_mut-AllScores Balanced s mid check.dimension
          (add_points (check_result check step.rule finding))
          (λ d. add_points-Balanced check step.rule finding d (
            find_last-All IsFair (λ x. x.scoring_rule_id =ₜ check.scoring_rule_id)
              standard.scoring_rules rules-IsFair step.rule_found))
          step.added b)

dimensions-le-five :
    (s : DimensionScores)
    → AllScores Balanced s
    → AllScores (λ d. d.score ≤ 5) (finalize_dimension_scores s)
unfolding finalize_dimension_scores
dimensions-le-five s (a, b, c, d, e, g, i) = (
  finalize-le-five _ a,
  finalize-le-five _ b,
  finalize-le-five _ c,
  finalize-le-five _ d,
  finalize-le-five _ e,
  finalize-le-five _ g,
  finalize-le-five _ i,
)

total-le-hundred : (s : DimensionScores) → AllScores (λ d. d.score ≤ 5) s → total_of s ≤ 100
unfolding total_of
total-le-hundred s h = omega arith

-- If a submission is scored, then each dimension has a score of at most 5, and the total score is
-- at most 100.
pub score_check_results_bounds :
    (run_id : ℕ) (binding : AuditBinding) (submission : CheckResultsSubmission) (available : List ℕ)
    (approved : List Text) (id now : ℕ) (out : CheckResults)
    → score_check_results run_id binding submission available approved id now ≡ ok out
    → AllScores (λ d. d.score ≤ 5) out.dimension_scores × (out.total_score ≤ 100)
score_check_results_bounds run_id binding submission available approved id now out h =
    let done =
      score_check_results-Scored run_id binding submission available approved id now out h in
    let bounded =
      dimensions-le-five done.scores (Steps-Balanced available approved done.steps (omega arith)) in
    (rw done.final bounded, rw done.total (total-le-hundred _ bounded))
