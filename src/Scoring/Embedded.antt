-- ===== src/Scoring/Embedded.antt =====
-- The catalog files that scoring.rs compiles in by include_str!. Every weight and every number of
-- points in them is a multiple of 1/4, so they are counted in quarters.
use aleth_os_tool_passport.Prelude.{String, ℕ, Bool, true, false, [], ◌∷◌, map, codes}
use aleth_os_tool_passport.Scoring.Types.{AuditStandard, ProfileCheck, AuditProfile}

-- standards/alethos-toolpassport/0.3.0.json
unfoldable pub standard : AuditStandard
standard = record {
  standard_id = codes "alethos-toolpassport";
  standard_version = codes "0.3.0";
  dimensions = map codes (
      "capability_clarity" ∷ "interface_openness" ∷ "automation_readiness" ∷ "data_portability"
      ∷ "permission_risk" ∷ "evidence_quality" ∷ "ecosystem_fit" ∷ []);
  scoring_rules =
      (record {
        scoring_rule_id = codes "positive_capability_v1";
        finding_points = record { pass = 4; partial = 2; fail = 0; unknown = 0 };
        not_applicable_requires_approval = true;
      })
      ∷ (record {
        scoring_rule_id = codes "bounded_risk_v1";
        finding_points = record { pass = 4; partial = 1; fail = 0; unknown = 0 };
        not_applicable_requires_approval = true;
      })
      ∷ [];
  rating_policy = record {
    thresholds =
        (record { minimum_total_score = 0; rating = codes "not_recommended" })
        ∷ (record { minimum_total_score = 20; rating = codes "manual_only" })
        ∷ (record { minimum_total_score = 40; rating = codes "trial" })
        ∷ (record { minimum_total_score = 60; rating = codes "low_risk" })
        ∷ (record { minimum_total_score = 80; rating = codes "core_candidate" })
        ∷ [];
    high_risk_rating_caps = record {
      partial = codes "trial";
      fail = codes "not_recommended";
      unknown = codes "manual_only";
    };
  };
}

-- one line of a profile
abbrev check : String → String → ℕ → Bool → String → ProfileCheck
check check_id dimension weight high_risk rule = record {
  check_id = codes check_id;
  dimension = codes dimension;
  weight = weight;
  high_risk = high_risk;
  scoring_rule_id = codes rule;
}

unfoldable pub generic_profile : AuditProfile
generic_profile = record {
  profile_id = codes "generic";
  profile_version = codes "0.3.0";
  standard_id = codes "alethos-toolpassport";
  standard_version = codes "0.3.0";
  checks =
      check "generic.capability_scope" "capability_clarity" 4 false "positive_capability_v1"
      ∷ check "generic.interface_contract" "interface_openness" 4 false "positive_capability_v1"
      ∷ check "generic.automation_contract" "automation_readiness" 4 false "positive_capability_v1"
      ∷ check "generic.export_path" "data_portability" 4 false "positive_capability_v1"
      ∷ check "generic.permission_boundary" "permission_risk" 6 true "bounded_risk_v1"
      ∷ check "generic.claim_traceability" "evidence_quality" 4 false "positive_capability_v1"
      ∷ check "generic.maintenance_signal" "ecosystem_fit" 4 false "positive_capability_v1"
      ∷ [];
}

unfoldable pub agent_framework_profile : AuditProfile
agent_framework_profile = record {
  profile_id = codes "agent_framework";
  profile_version = codes "0.3.0";
  standard_id = codes "alethos-toolpassport";
  standard_version = codes "0.3.0";
  checks =
      check "agent_framework.capability_boundaries" "capability_clarity" 4 false
        "positive_capability_v1"
      ∷ check "agent_framework.tool_contract" "interface_openness" 5 false "positive_capability_v1"
      ∷ check "agent_framework.structured_io" "automation_readiness" 5 false
          "positive_capability_v1"
      ∷ check "agent_framework.state_recovery" "automation_readiness" 6 false
          "positive_capability_v1"
      ∷ check "agent_framework.state_export" "data_portability" 4 false "positive_capability_v1"
      ∷ check "agent_framework.tool_permission_isolation" "permission_risk" 8 true "bounded_risk_v1"
      ∷ check "agent_framework.human_gate" "permission_risk" 8 true "bounded_risk_v1"
      ∷ check "agent_framework.claim_traceability" "evidence_quality" 4 false
          "positive_capability_v1"
      ∷ check "agent_framework.composability" "ecosystem_fit" 4 false "positive_capability_v1"
      ∷ [];
}

unfoldable pub mcp_server_profile : AuditProfile
mcp_server_profile = record {
  profile_id = codes "mcp_server";
  profile_version = codes "0.3.0";
  standard_id = codes "alethos-toolpassport";
  standard_version = codes "0.3.0";
  checks =
      check "mcp_server.capability_scope" "capability_clarity" 4 false "positive_capability_v1"
      ∷ check "mcp_server.tool_schema" "interface_openness" 6 false "positive_capability_v1"
      ∷ check "mcp_server.structured_invocation" "automation_readiness" 5 false
          "positive_capability_v1"
      ∷ check "mcp_server.error_handling" "automation_readiness" 5 false "positive_capability_v1"
      ∷ check "mcp_server.configuration_portability" "data_portability" 4 false
          "positive_capability_v1"
      ∷ check "mcp_server.filesystem_shell_boundary" "permission_risk" 8 true "bounded_risk_v1"
      ∷ check "mcp_server.network_credential_scope" "permission_risk" 8 true "bounded_risk_v1"
      ∷ check "mcp_server.claim_traceability" "evidence_quality" 4 false "positive_capability_v1"
      ∷ check "mcp_server.client_compatibility" "ecosystem_fit" 4 false "positive_capability_v1"
      ∷ [];
}

unfoldable pub cli_api_tool_profile : AuditProfile
cli_api_tool_profile = record {
  profile_id = codes "cli_api_tool";
  profile_version = codes "0.3.0";
  standard_id = codes "alethos-toolpassport";
  standard_version = codes "0.3.0";
  checks =
      check "cli_api_tool.capability_scope" "capability_clarity" 4 false "positive_capability_v1"
      ∷ check "cli_api_tool.interface_contract" "interface_openness" 6 false
          "positive_capability_v1"
      ∷ check "cli_api_tool.structured_output" "automation_readiness" 5 false
          "positive_capability_v1"
      ∷ check "cli_api_tool.headless_failure_contract" "automation_readiness" 5 false
          "positive_capability_v1"
      ∷ check "cli_api_tool.export_path" "data_portability" 4 false "positive_capability_v1"
      ∷ check "cli_api_tool.credential_scope" "permission_risk" 8 true "bounded_risk_v1"
      ∷ check "cli_api_tool.destructive_action_control" "permission_risk" 8 true "bounded_risk_v1"
      ∷ check "cli_api_tool.paid_side_effect_control" "permission_risk" 8 true "bounded_risk_v1"
      ∷ check "cli_api_tool.claim_traceability" "evidence_quality" 4 false "positive_capability_v1"
      ∷ check "cli_api_tool.version_compatibility" "ecosystem_fit" 4 false "positive_capability_v1"
      ∷ [];
}
