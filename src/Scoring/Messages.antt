-- ===== src/Scoring/Messages.antt =====
-- backend/src/services/scoring.rs: what `to_string` of a ScoringError gives.
use aleth_os_tool_passport.Prelude.{
  ◌&&◌, List, [], ◌∷◌, ◌++◌, ◌==◌, if◌then◌else◌, Text, codes, Message, format, says,
}
use aleth_os_tool_passport.Platform.{Platform}
use aleth_os_tool_passport.Scoring.Types.{
  ScoringError, invalid_schema_version, invalid_evidence_board_version, duplicate_check,
  unknown_check, missing_check, empty_rationale, duplicate_evidence_id, unknown_evidence_id,
  missing_not_applicable_reason, unexpected_not_applicable_reason, not_applicable_approval_required,
  invalid_catalog,
}

-- the places `{}` of a format string, filled from the left
abbrev fill : Text → List Text → Text
fill [] arguments = []
fill (c ∷ []) arguments = c ∷ []
fill (c ∷ d ∷ s) [] = c ∷ d ∷ s
fill (c ∷ d ∷ s) (a ∷ arguments) =
    let here = a ++ fill s arguments in
    let later = fill (d ∷ s) (a ∷ arguments) in if c == 123 && d == 125 then here else c ∷ later

abbrev pub text_of : Message → Text
text_of (format s arguments) = fill (codes s) arguments

unfoldable pub to_string : Platform → ScoringError → Message
to_string p invalid_schema_version = says "check_results_schema_version must be 0.1.0"
to_string p invalid_evidence_board_version =
    says "evidence_board_version must be between 1 and 9223372036854775807"
to_string p (duplicate_check c) = format "finding for check {} is duplicated" (c ∷ [])
to_string p (unknown_check c) = format "finding for unknown check {}" (c ∷ [])
to_string p (missing_check c) = format "finding for required check {} is missing" (c ∷ [])
to_string p (empty_rationale c) = format "finding rationale for check {} must not be empty" (c ∷ [])
to_string p (duplicate_evidence_id c id) =
    format "evidence ID {} is duplicated in check {}" (p.uuid_text id ∷ c ∷ [])
to_string p (unknown_evidence_id c id) =
    format "evidence ID {} referenced by check {} does not belong to the run"
      (p.uuid_text id ∷ c ∷ [])
to_string p (missing_not_applicable_reason c) =
    format "not_applicable_reason is required for check {}" (c ∷ [])
to_string p (unexpected_not_applicable_reason c) =
    format "not_applicable_reason must be null unless check {} is not_applicable" (c ∷ [])
to_string p (not_applicable_approval_required c) =
    format "not_applicable finding for check {} requires trusted approval" (c ∷ [])
to_string p (invalid_catalog m) = format "embedded audit catalog is invalid: {}" (text_of m ∷ [])
