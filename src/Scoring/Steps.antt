-- ===== src/Scoring/Steps.antt =====
-- What a successful scoring has done, as data: one step for each check of the profile.
use aleth_os_tool_passport.Prelude.{
  ℕ, ◌≡◌, subst, subst₂, sym, ◌∙◌, some, List, [], ◌∷◌, arith, Text, ◌=ₜ◌, ok, ap, >>=-eq-ok,
  ok_or-ok, ok_injective, ok_or, find_last,
}
use aleth_os_tool_passport.Domain.Run.{AuditBinding}
use aleth_os_tool_passport.Domain.CheckResults.{
  CheckResults, Rating, FindingSubmission, CheckResultsSubmission, CheckResult, DimensionScores,
  get_mut,
}
use aleth_os_tool_passport.Scoring.Types.{ScoringRule, AuditStandard, AuditProfile, ProfileCheck}
use aleth_os_tool_passport.Scoring.Embedded.{standard}
use aleth_os_tool_passport.Scoring.Catalog.{load_catalog, validate_catalog}
use aleth_os_tool_passport.Scoring.Findings.{
  validate_submission_header, validate_finding, collect_findings, remove_finding,
}
use aleth_os_tool_passport.Scoring.{
  check_result, add_points, score_check, score_checks, no_scores, finalize_dimension_scores,
  total_of, rating_for_total, cap_rating, score_check_results,
}

module _ (rules : List ScoringRule) (available : List ℕ) (approved : List Text) where
  -- one round of the loop: the rule that it finds, the checks that pass, what it adds and pushes
  pub record Step (check : ProfileCheck) (finding : FindingSubmission) (s s' : DimensionScores)
      (r : CheckResult) : Type 0 where
    pub rule : ScoringRule
    pub rule_found : find_last (λ x. x.scoring_rule_id =ₜ check.scoring_rule_id) rules ≡ some rule
    pub valid : validate_finding finding available approved rule ≡ ok tt
    pub pushed : r ≡ check_result check rule finding
    pub added : get_mut s check.dimension (add_points (check_result check rule finding)) ≡ some s'

  pub data Steps
      : List ProfileCheck
        → List FindingSubmission
        → DimensionScores
        → List CheckResult
        → DimensionScores
        → Type 0 where
    done : {found : List FindingSubmission} {s : DimensionScores} → Steps [] found s [] s
    next :
        {check : ProfileCheck} {checks : List ProfileCheck} {found left : List FindingSubmission}
        {finding : FindingSubmission} {s mid end : DimensionScores} {r : CheckResult}
        {rs : List CheckResult}
        → remove_finding check.check_id found ≡ some (finding, left)
        → Step check finding s mid r
        → Steps checks left mid rs end
        → Steps (check ∷ checks) found s (r ∷ rs) end

  score_check-Step :
      (check : ProfileCheck) (finding : FindingSubmission) (s s' : DimensionScores)
      (r : CheckResult)
      → score_check rules available approved check finding s ≡ ok (r, s')
      → Step check finding s s' r
  unfolding score_check
  score_check-Step check finding s s' r h =
      let (rule, found, h₁) =
        >>=-eq-ok (ok_or _ (find_last (λ x. x.scoring_rule_id =ₜ check.scoring_rule_id) rules)) _
          h in
      let (_, valid, h₂) = >>=-eq-ok (validate_finding finding available approved rule) _ h₁ in
      let (_, added, h₃) =
        >>=-eq-ok
          (ok_or _ (get_mut s check.dimension (add_points (check_result check rule finding)))) _
          h₂ in
      record {
        rule = rule;
        rule_found = ok_or-ok _ _ found;
        valid = valid;
        pushed = cc;
        added = ok_or-ok _ _ added ∙ cc;
      }

  pub score_checks-Steps :
      (checks : List ProfileCheck) (found : List FindingSubmission) (s end : DimensionScores)
      (rs : List CheckResult)
      → score_checks rules available approved checks found s ≡ ok (rs, end)
      → Steps checks found s rs end
  unfolding score_checks
  score_checks-Steps [] found s end rs h =
      let e : s ≡ end = cc in
      let n : [] ≡ rs = cc in subst₂ (λ rs end. Steps [] found s rs end) n e done
  score_checks-Steps (check ∷ checks) found s end rs h =
      let ((finding, left), removed, h₁) =
        >>=-eq-ok (ok_or _ (remove_finding check.check_id found)) _ h in
      let ((r, mid), scored, h₂) =
        >>=-eq-ok (score_check rules available approved check finding s) _ h₁ in
      let ((rs', end'), looped, h₃) =
        >>=-eq-ok (score_checks rules available approved checks left mid) _ h₂ in
      let e : end' ≡ end = cc in
      let n : r ∷ rs' ≡ rs = cc in
      subst₂ (λ rs end. Steps (check ∷ checks) found s rs end) n e
        (next (ok_or-ok _ _ removed) (score_check-Step check finding s mid r scored)
          (score_checks-Steps checks left mid end' rs' looped))

-- a successful call of `score_check_results`, phase by phase
pub record Scored (binding : AuditBinding) (submission : CheckResultsSubmission)
    (available : List ℕ) (approved : List Text) (out : CheckResults) : Type 0 where
  pub profile : AuditProfile
  pub found : List FindingSubmission
  pub scores : DimensionScores
  pub uncapped : Rating
  pub header : validate_submission_header submission ≡ ok tt
  pub loaded : load_catalog binding ≡ ok (standard, profile)
  pub collected : collect_findings profile.checks [] submission.findings ≡ ok found
  pub steps :
      Steps standard.scoring_rules available approved profile.checks found no_scores out.results
        scores
  pub final : out.dimension_scores ≡ finalize_dimension_scores scores
  pub total : out.total_score ≡ total_of (finalize_dimension_scores scores)
  pub rated :
      rating_for_total standard.rating_policy (total_of (finalize_dimension_scores scores))
      ≡ ok uncapped
  pub capped :
      cap_rating standard.rating_policy.high_risk_rating_caps uncapped out.results ≡ ok out.rating

load_catalog-standard :
    (binding : AuditBinding) (std : AuditStandard) (profile : AuditProfile)
    → load_catalog binding ≡ ok (std, profile)
    → std ≡ standard
unfolding load_catalog
load_catalog-standard binding std profile h = ground arith

pub score_check_results-Scored :
    (run_id : ℕ) (binding : AuditBinding) (submission : CheckResultsSubmission) (available : List ℕ)
    (approved : List Text) (id now : ℕ) (out : CheckResults)
    → score_check_results run_id binding submission available approved id now ≡ ok out
    → Scored binding submission available approved out
unfolding score_check_results
score_check_results-Scored run_id binding submission available approved id now out h =
    let (_, header, h₁) = >>=-eq-ok (validate_submission_header submission) _ h in
    let ((std, profile), loaded, h₂) = >>=-eq-ok (load_catalog binding) _ h₁ in
    let e = load_catalog-standard binding std profile loaded in
    let (_, valid, h₃) = >>=-eq-ok (validate_catalog std profile) _ h₂ in
    let (found, collected, h₄) =
      >>=-eq-ok (collect_findings profile.checks [] submission.findings) _ h₃ in
    let ((rs, scores), looped, h₅) =
      >>=-eq-ok (score_checks std.scoring_rules available approved profile.checks found no_scores) _
        h₄ in
    let (uncapped, rated, h₆) =
      >>=-eq-ok (rating_for_total std.rating_policy (total_of (finalize_dimension_scores scores))) _
        h₅ in
    let (rating, capped, h₇) =
      >>=-eq-ok (cap_rating std.rating_policy.high_risk_rating_caps uncapped rs) _ h₆ in
    let same = ok_injective h₇ in
    let results : rs ≡ out.results = ap (λ o. o.results) same in
    let last : rating ≡ out.rating = ap (λ o. o.rating) same in
    record {
      profile = profile;
      found = found;
      scores = scores;
      uncapped = uncapped;
      header = header;
      loaded = subst (λ x. load_catalog binding ≡ ok (x, profile)) e loaded;
      collected = collected;
      steps =
          subst
            (λ rs.
              Steps standard.scoring_rules available approved profile.checks found no_scores rs
                scores)
            results
            (score_checks-Steps standard.scoring_rules available approved profile.checks found
              no_scores scores rs
              (subst
                (λ x.
                  score_checks x.scoring_rules available approved profile.checks found no_scores
                  ≡ ok (rs, scores))
                e looped));
      final = sym (ap (λ o. o.dimension_scores) same);
      total = sym (ap (λ o. o.total_score) same);
      rated =
          subst
            (λ x.
              rating_for_total x.rating_policy (total_of (finalize_dimension_scores scores))
              ≡ ok uncapped)
            e rated;
      capped =
          subst₂
            (λ rs r. cap_rating standard.rating_policy.high_risk_rating_caps uncapped rs ≡ ok r)
            results last
            (subst (λ x. cap_rating x.rating_policy.high_risk_rating_caps uncapped rs ≡ ok rating) e
              capped);
    }
