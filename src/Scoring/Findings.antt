-- ===== src/Scoring/Findings.antt =====
-- backend/src/services/scoring.rs: what a submission of findings must satisfy.
use aleth_os_tool_passport.Prelude.{
  ℕ, Bool, true, false, not, ◌&&◌, ◌||◌, Option, none, some, List, [], ◌∷◌, ltb, ◌==◌,
  if◌then◌else◌, Text, codes, ◌=ₜ◌, is_empty, trim, Result, ok, ◌>>◌, refuse, any, is_some,
}
use aleth_os_tool_passport.Domain.CheckResults.{
  Finding, not_applicable, FindingSubmission, CheckResultsSubmission,
}
use aleth_os_tool_passport.Scoring.Types.{
  ScoringError, invalid_schema_version, invalid_evidence_board_version, duplicate_check,
  unknown_check, empty_rationale, duplicate_evidence_id, unknown_evidence_id,
  missing_not_applicable_reason, unexpected_not_applicable_reason, not_applicable_approval_required,
  ScoringRule, ProfileCheck,
}

-- `i64::MAX`
abbrev pub i64_max : ℕ
i64_max = 9223372036854775807

unfoldable pub validate_submission_header : CheckResultsSubmission → Result ScoringError (Unit {0})
validate_submission_header submission = do
  refuse (not (submission.check_results_schema_version =ₜ codes "0.1.0")) invalid_schema_version
  refuse (submission.evidence_board_version == 0 || ltb i64_max submission.evidence_board_version)
      invalid_evidence_board_version

abbrev pub is_not_applicable : Finding → Bool
is_not_applicable not_applicable = true
is_not_applicable _ = false

-- the loop over `evidence_ids`; `seen` is the HashSet
unfoldable pub validate_evidence_ids :
    Text → List ℕ → List ℕ → List ℕ → Result ScoringError (Unit {0})
validate_evidence_ids check_id available seen [] = ok tt
validate_evidence_ids check_id available seen (id ∷ ids) = do
  refuse (any (λ s. s == id) seen) (duplicate_evidence_id check_id id)
  refuse (not (any (λ a. a == id) available)) (unknown_evidence_id check_id id)
  validate_evidence_ids check_id available (id ∷ seen) ids

abbrev is_blank_reason : Option Text → Bool
is_blank_reason none = true
is_blank_reason (some reason) = is_empty (trim reason)

-- the last `if` of `validate_finding`
unfoldable pub validate_applicability :
    FindingSubmission → List Text → ScoringRule → Result ScoringError (Unit {0})
validate_applicability finding approved rule =
    if is_not_applicable finding.finding
    then (do
      refuse (is_blank_reason finding.not_applicable_reason)
          (missing_not_applicable_reason finding.check_id)
      refuse
          (rule.not_applicable_requires_approval && not (any (λ c. c =ₜ finding.check_id) approved))
          (not_applicable_approval_required finding.check_id))
    else refuse (is_some finding.not_applicable_reason)
        (unexpected_not_applicable_reason finding.check_id)

unfoldable pub validate_finding :
    FindingSubmission → List ℕ → List Text → ScoringRule → Result ScoringError (Unit {0})
validate_finding finding available approved rule = do
  refuse (is_empty (trim finding.rationale)) (empty_rationale finding.check_id)
  validate_evidence_ids finding.check_id available [] finding.evidence_ids
  validate_applicability finding approved rule

-- The first loop: the findings as a map from check IDs. The list `found` is the HashMap.
unfoldable pub collect_findings :
    List ProfileCheck
    → List FindingSubmission
    → List FindingSubmission
    → Result ScoringError (List FindingSubmission)
collect_findings checks found [] = ok found
collect_findings checks found (f ∷ findings) = do
  refuse (not (any (λ c. c.check_id =ₜ f.check_id) checks)) (unknown_check f.check_id)
  refuse (any (λ g. g.check_id =ₜ f.check_id) found) (duplicate_check f.check_id)
  collect_findings checks (f ∷ found) findings

-- `HashMap::remove`
unfoldable pub remove_finding :
    Text → List FindingSubmission → Option (FindingSubmission × List FindingSubmission)
remove_finding check_id [] = none
remove_finding check_id (f ∷ found) =
    let rest = remove_finding check_id found in
    if f.check_id =ₜ check_id
    then some (f, found)
    else elim rest [ none ↦ none | some (g, left) ↦ some (g, f ∷ left) ]
