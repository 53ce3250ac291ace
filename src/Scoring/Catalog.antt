-- ===== src/Scoring/Catalog.antt =====
-- backend/src/services/scoring.rs: loading and checking the embedded catalog.
use aleth_os_tool_passport.Prelude.{
  Bool, true, not, ◌&&◌, ◌||◌, Option, none, some, List, [], ◌∷◌, map, ltb, if◌then◌else◌, Text,
  codes, ◌=ₜ◌, Result, ok, ◌>>=◌, ◌>>◌, refuse, ok_or, format, says, any,
}
use aleth_os_tool_passport.Domain.Run.{AuditBinding}
use aleth_os_tool_passport.Domain.Tool
use aleth_os_tool_passport.Domain.Tool.{ToolType}
use aleth_os_tool_passport.Scoring.Types.{
  RatingThreshold, AuditStandard, ProfileCheck, AuditProfile, ScoringError, invalid_catalog,
}
use aleth_os_tool_passport.Scoring.Embedded.{
  standard, generic_profile, agent_framework_profile, mcp_server_profile, cli_api_tool_profile,
}

unfoldable pub profile_of : Text → Option AuditProfile
profile_of profile_id =
    if profile_id =ₜ codes "generic"
    then some generic_profile
    else if profile_id =ₜ codes "agent_framework"
    then some agent_framework_profile
    else if profile_id =ₜ codes "mcp_server"
    then some mcp_server_profile
    else if profile_id =ₜ codes "cli_api_tool"
    then some cli_api_tool_profile
    else none

-- The embedded files are valid JSON of these types, so `serde_json::from_str` does not fail.
unfoldable pub load_catalog : AuditBinding → Result ScoringError (AuditStandard × AuditProfile)
load_catalog binding = do
  refuse
      (not (binding.standard_id =ₜ codes "alethos-toolpassport")
        || not (binding.standard_version =ₜ codes "0.3.0")
        || not (binding.profile_version =ₜ codes "0.3.0"))
      (invalid_catalog (
        format "unsupported audit binding {}@{} / {}@{}" (
          binding.standard_id ∷ binding.standard_version ∷ binding.profile_id
          ∷ binding.profile_version ∷ [])))
  profile ←
      ok_or (invalid_catalog (format "unsupported profile {}" (binding.profile_id ∷ [])))
        (profile_of binding.profile_id)
  ok (standard, profile)

unfoldable pub current_audit_binding : ToolType → AuditBinding
current_audit_binding tool_type = record {
  standard_id = codes "alethos-toolpassport";
  standard_version = codes "0.3.0";
  profile_id = Tool.as_str tool_type;
  profile_version = codes "0.3.0";
}

unfoldable pub audit_binding_check_ids : AuditBinding → Result ScoringError (List Text)
audit_binding_check_ids binding = do
  (_, profile) ← load_catalog binding
  ok (map (λ c. c.check_id) profile.checks)

ascending : List RatingThreshold → Bool
ascending [] = true
ascending (a ∷ []) = true
ascending (a ∷ b ∷ rest) = ltb a.minimum_total_score b.minimum_total_score && ascending (b ∷ rest)

check_references : List Text → List Text → List ProfileCheck → Result ScoringError (Unit {0})
check_references dimensions rules [] = ok tt
check_references dimensions rules (c ∷ checks) = do
  refuse (not (any (λ d. d =ₜ c.dimension) dimensions)) (
      invalid_catalog
        (format "check {} references unknown dimension {}" (c.check_id ∷ c.dimension ∷ [])))
  refuse (not (any (λ r. r =ₜ c.scoring_rule_id) rules)) (
      invalid_catalog (
        format "check {} references unknown scoring rule {}" (c.check_id ∷ c.scoring_rule_id ∷ [])))
  check_references dimensions rules checks

unfoldable pub validate_catalog : AuditStandard → AuditProfile → Result ScoringError (Unit {0})
unfolding ascending check_references
validate_catalog standard profile = do
  refuse
      (not (profile.standard_id =ₜ standard.standard_id)
        || not (profile.standard_version =ₜ standard.standard_version))
      (invalid_catalog (says "profile does not bind the embedded standard version"))
  check_references standard.dimensions (map (λ r. r.scoring_rule_id) standard.scoring_rules)
      profile.checks
  refuse (not (ascending standard.rating_policy.thresholds))
      (invalid_catalog (says "rating thresholds must be strictly ascending"))
