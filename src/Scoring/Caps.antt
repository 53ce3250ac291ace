-- ===== src/Scoring/Caps.antt =====
-- The rating: a poor finding on a high-risk check caps it, whatever the total score.
use aleth_os_tool_passport.Prelude.{
  ℕ, ◌≤◌, ◌≡◌, refl, sym, ◌∙◌, Bool, true, false, none, some, List, [], ◌∷◌, arith, if◌then◌else◌,
  Text, Result, ok, ok_injective, ◌>>=◌, All,
}
use aleth_os_tool_passport.Domain.Run.{AuditBinding}
use aleth_os_tool_passport.Domain.CheckResults
use aleth_os_tool_passport.Domain.CheckResults.{
  CheckResults, Rating, rank, min_rating, not_recommended, manual_only, trial, low_risk,
  core_candidate, Finding, pass, partial, fail, unknown, not_applicable, CheckResultsSubmission,
  CheckResult,
}
use aleth_os_tool_passport.Scoring.Types.{ScoringError, cap_for, HighRiskRatingCaps}
use aleth_os_tool_passport.Scoring.Embedded.{standard}
use aleth_os_tool_passport.Scoring.{parse_rating, cap_rating, score_check_results}
use aleth_os_tool_passport.Scoring.Steps.{score_check_results-Scored}

-- the best rating that a finding on a high-risk check leaves possible
abbrev pub ceiling : Finding → Rating
ceiling pass = core_candidate
ceiling partial = trial
ceiling fail = not_recommended
ceiling unknown = manual_only
ceiling not_applicable = core_candidate

abbrev pub WithinCap : Rating → CheckResult → Type 0
WithinCap rating result = result.high_risk ≡ true → rank rating ≤ rank (ceiling result.finding)

abbrev caps : HighRiskRatingCaps
caps = standard.rating_policy.high_risk_rating_caps

abbrev limited : Rating → CheckResult → Rating
limited rating r = if r.high_risk then min_rating rating (ceiling r.finding) else rating

min_rating-core : (rating : Rating) → min_rating rating core_candidate ≡ rating
min_rating-core rating = ground arith

-- one round of the loop, with the cap that the catalog names
limit_lem :
    (b : Bool) (f : Finding) (rating : Rating) (rest : Rating → Result ScoringError Rating)
    → elim (if b then cap_for caps f else none) [
      | none ↦ rest rating
      | some cap ↦ (do limit ← parse_rating cap; rest (min_rating rating limit))
    ]
      ≡ rest (if b then min_rating rating (ceiling f) else rating)
unfolding cap_for parse_rating CheckResults.parse standard
limit_lem false f rating rest = refl
limit_lem true pass rating rest = rw min_rating-core
limit_lem true partial rating rest = refl
limit_lem true fail rating rest = refl
limit_lem true unknown rating rest = refl
limit_lem true not_applicable rating rest = rw min_rating-core

cap_rating-cons :
    (rating : Rating) (r : CheckResult) (results : List CheckResult)
    → cap_rating caps rating (r ∷ results) ≡ cap_rating caps (limited rating r) results
unfolding cap_rating
cap_rating-cons rating r results =
    limit_lem r.high_risk r.finding rating (λ q. cap_rating caps q results)

cap_rating-le :
    (rating : Rating) (results : List CheckResult) {out : Rating}
    → cap_rating caps rating results ≡ ok out
    → rank out ≤ rank rating
unfolding cap_rating
cap_rating-le rating [] {out} h = let e : rating ≡ out = ok_injective h in ground arith
cap_rating-le rating (r ∷ results) {out} h = ground (
  arith,
  cap_rating-le (limited rating r) results {out = out} (sym (cap_rating-cons rating r results) ∙ h),
)

cap_rating-WithinCap :
    (rating : Rating) (results : List CheckResult) {out : Rating}
    → cap_rating caps rating results ≡ ok out
    → All (WithinCap out) results
cap_rating-WithinCap rating [] h = tt
cap_rating-WithinCap rating (r ∷ results) {out} h =
    let h' = sym (cap_rating-cons rating r results) ∙ h in
    (
      λ risky. ground (arith, cap_rating-le (limited rating r) results {out = out} h'),
      cap_rating-WithinCap (limited rating r) results h',
    )

-- If a submission is scored, then for each result on a high-risk check the rating is at most the
-- cap of its finding: trial for partial, not_recommended for fail, manual_only for unknown, and no
-- limit for pass and not_applicable.
pub score_check_results-WithinCap :
    (run_id : ℕ) (binding : AuditBinding) (submission : CheckResultsSubmission) (available : List ℕ)
    (approved : List Text) (id now : ℕ) (out : CheckResults)
    → score_check_results run_id binding submission available approved id now ≡ ok out
    → All (WithinCap out.rating) out.results
score_check_results-WithinCap run_id binding submission available approved id now out h =
    let done =
      score_check_results-Scored run_id binding submission available approved id now out h in
    cap_rating-WithinCap done.uncapped out.results done.capped
