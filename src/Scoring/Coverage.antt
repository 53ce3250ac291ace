-- ===== src/Scoring/Coverage.antt =====
-- What the results say of the submission: one result for each check of the profile, in its order,
-- with findings that passed validation.
use aleth_os_tool_passport.Prelude.{
  any-false, has, Distinct, AllIn, ℕ, ◌≡◌, refl, inl, inr, subst, sym, ◌∙◌, true, false, not, some,
  List, [], ◌∷◌, map, arith, Text, ◌=ₜ◌, =ₜ→≡, is_empty, trim, ok, ap, >>=-eq-ok, refuse, All,
  All-map, any, Bool-cases, Option-cases,
}
use mathlib.Core.Path.{ap₂}
use aleth_os_tool_passport.Domain.Run.{AuditBinding}
use aleth_os_tool_passport.Domain.CheckResults.{
  CheckResults, not_applicable, FindingSubmission, CheckResultsSubmission, CheckResult,
  DimensionScores,
}
use aleth_os_tool_passport.Scoring.Types.{ScoringRule, ProfileCheck, AuditProfile}
use aleth_os_tool_passport.Scoring.Embedded.{standard}
use aleth_os_tool_passport.Scoring.Catalog.{load_catalog}
use aleth_os_tool_passport.Scoring.Findings.{
  validate_evidence_ids, validate_finding, validate_applicability, is_not_applicable,
  remove_finding,
}
use aleth_os_tool_passport.Scoring.{check_result, no_scores, score_check_results}
use aleth_os_tool_passport.Scoring.Bounds.{find_last-All}
use aleth_os_tool_passport.Scoring.Steps.{Steps, done, next, score_check_results-Scored}

-- The loop accepts exactly distinct available IDs that were not seen before.
evidence_ids-lem :
    (check_id : Text) (available seen ids : List ℕ)
    → validate_evidence_ids check_id available seen ids ≡ ok tt
    → AllIn available ids × Distinct ids × All (λ y. has seen y ≡ false) ids
unfolding validate_evidence_ids
evidence_ids-lem check_id available seen [] h = (tt, tt, tt)
evidence_ids-lem check_id available seen (id ∷ ids) h =
    let (_, fresh, h₁) = >>=-eq-ok (refuse (has seen id) _) _ h in
    let (_, known, h₂) = >>=-eq-ok (refuse (not (has available id)) _) _ h₁ in
    let (inside, distinct, apart) = evidence_ids-lem check_id available (id ∷ seen) ids h₂ in
    (
      (ground arith, inside),
      (any-false ids seen id apart, distinct),
      (
        ground arith,
        All-map (λ y. has (id ∷ seen) y ≡ false) (λ y. has seen y ≡ false) (λ y a. ground arith) ids
            apart,
      ),
    )

-- What a result must satisfy: a rationale with text, evidence of the board and none of it twice,
-- and approval for a check that is not applicable.
pub record IsSound (available : List ℕ) (approved : List Text) (r : CheckResult) : Type 0 where
  pub rationale : is_empty (trim r.rationale) ≡ false
  pub evidence : AllIn available r.evidence_ids
  pub distinct : Distinct r.evidence_ids
  pub approval : r.finding ≡ not_applicable → any (λ c. c =ₜ r.check_id) approved ≡ true

abbrev Strict : ScoringRule → Type 0
Strict rule = rule.not_applicable_requires_approval ≡ true

rules-Strict : All Strict standard.scoring_rules
unfolding standard
rules-Strict = (refl, (refl, tt))

remove_finding-id :
    (check_id : Text) (found : List FindingSubmission) (f : FindingSubmission)
    (left : List FindingSubmission)
    → remove_finding check_id found ≡ some (f, left)
    → (f.check_id =ₜ check_id) ≡ true
unfolding remove_finding
remove_finding-id check_id [] f left h = ground arith
remove_finding-id check_id (g ∷ found) f left h = elim (Bool-cases (g.check_id =ₜ check_id)) [
  | inl same ↦ ground arith
  | inr other ↦ elim (Option-cases (remove_finding check_id found)) [
    | inl none_left ↦ ground arith
    | inr ((x, rest), found_it) ↦
        let same = remove_finding-id check_id found x rest found_it in ground arith
  ]
]

approval-lem :
    (f : FindingSubmission) (approved : List Text) (rule : ScoringRule)
    → Strict rule
    → validate_applicability f approved rule ≡ ok tt
    → f.finding ≡ not_applicable
    → any (λ c. c =ₜ f.check_id) approved ≡ true
unfolding validate_applicability
approval-lem f approved rule strict h e =
    let applies : is_not_applicable f.finding ≡ true = ap is_not_applicable e in
    elim (Bool-cases (any (λ c. c =ₜ f.check_id) approved)) [
      | inl approval ↦ approval
      | inr missing ↦ ground arith
    ]

check_result-id :
    (check : ProfileCheck) (rule : ScoringRule) (f : FindingSubmission)
    → (check_result check rule f).check_id ≡ check.check_id
unfolding check_result
check_result-id check rule f = refl

module _ (available : List ℕ) (approved : List Text) where
  check_result-IsSound :
      (check : ProfileCheck) (rule : ScoringRule) (f : FindingSubmission)
      → Strict rule
      → (f.check_id =ₜ check.check_id) ≡ true
      → validate_finding f available approved rule ≡ ok tt
      → IsSound available approved (check_result check rule f)
  unfolding validate_finding check_result
  check_result-IsSound check rule f strict same h =
      let (_, written, h₁) = >>=-eq-ok (refuse (is_empty (trim f.rationale)) _) _ h in
      let (_, listed, h₂) =
        >>=-eq-ok (validate_evidence_ids f.check_id available [] f.evidence_ids) _ h₁ in
      let (inside, distinct, _) = evidence_ids-lem f.check_id available [] f.evidence_ids listed in
      record {
        rationale = ground arith;
        evidence = inside;
        distinct = distinct;
        approval = λ e.
            subst (λ id. any (λ c. c =ₜ id) approved ≡ true) (=ₜ→≡ _ _ same)
              (approval-lem f approved rule strict h₂ e);
      }

  -- every result is sound, and belongs to its check
  pub Steps-IsSound :
      (checks : List ProfileCheck) (found : List FindingSubmission) (s end : DimensionScores)
      (rs : List CheckResult)
      → Steps standard.scoring_rules available approved checks found s rs end
      → All (IsSound available approved) rs
        × (map (λ r. r.check_id) rs ≡ map (λ c. c.check_id) checks)
  Steps-IsSound _ _ _ _ _ done = (tt, refl)
  Steps-IsSound _ _ _ _ _
        (next {check} {checks} {found} {left} {finding} {s} {mid} {end} {r} {rs} removed step
          steps) =
      let (sound, ids) = Steps-IsSound checks left mid end rs steps in
      let strict =
        find_last-All Strict (λ x. x.scoring_rule_id =ₜ check.scoring_rule_id)
          standard.scoring_rules rules-Strict step.rule_found in
      let one =
        check_result-IsSound check step.rule finding strict
          (remove_finding-id check.check_id found finding left removed) step.valid in
      (
        (subst (IsSound available approved) (sym step.pushed) one, sound),
        ap₂ (λ x xs. x ∷ xs)
            (ap (λ x. x.check_id) step.pushed ∙ check_result-id check step.rule finding) ids,
      )

-- If a submission is scored, then each result has a rationale that is not blank, names only
-- evidence IDs that are available and none twice, and is not_applicable only for a check ID that
-- was approved as such; and the check IDs of the results are those of the bound profile, in its
-- order.
pub score_check_results-IsSound :
    (run_id : ℕ) (binding : AuditBinding) (submission : CheckResultsSubmission) (available : List ℕ)
    (approved : List Text) (id now : ℕ) (out : CheckResults)
    → score_check_results run_id binding submission available approved id now ≡ ok out
    → All (IsSound available approved) out.results
      × ((profile : AuditProfile) × (load_catalog binding ≡ ok (standard, profile))
          × (map (λ r. r.check_id) out.results ≡ map (λ c. c.check_id) profile.checks))
score_check_results-IsSound run_id binding submission available approved id now out h =
    let s = score_check_results-Scored run_id binding submission available approved id now out h in
    let (sound, ids) =
      Steps-IsSound available approved s.profile.checks s.found no_scores s.scores out.results
        s.steps in
    (sound, (s.profile, s.loaded, ids))
