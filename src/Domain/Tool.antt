-- ===== src/Domain/Tool.antt =====
-- backend/src/domain/tool.rs and tool_identity.rs: the registered tools and the answer of identity resolution.
use aleth_os_tool_passport.Prelude.{ℕ, Option, none, some, List, if◌then◌else◌, Text, codes, ◌=ₜ◌}

pub data ToolType : Type 0 where
  generic agent_framework mcp_server cli_api_tool : ToolType

unfoldable pub as_str : ToolType → Text
as_str generic = codes "generic"
as_str agent_framework = codes "agent_framework"
as_str mcp_server = codes "mcp_server"
as_str cli_api_tool = codes "cli_api_tool"

unfoldable pub parse : Text → Option ToolType
parse value =
    if value =ₜ codes "generic"
    then some generic
    else if value =ₜ codes "agent_framework"
    then some agent_framework
    else if value =ₜ codes "mcp_server"
    then some mcp_server
    else if value =ₜ codes "cli_api_tool"
    then some cli_api_tool
    else none

pub record ExternalIdentifier : Type 0 where
  pub namespace : Text
  pub value : Text
  pub canonical_url : Text

pub record Tool : Type 0 where
  pub tool_schema_version : Text
  pub tool_id : Text
  pub name : Text
  pub tool_type : ToolType
  pub canonical_url : Text
  pub external_identifiers : List ExternalIdentifier
  pub aliases : List Text
  pub created_at : ℕ
  pub updated_at : ℕ

pub record CreateToolRequest : Type 0 where
  pub tool_id : Text
  pub name : Text
  pub tool_type : ToolType
  pub canonical_url : Text
  pub external_identifiers : List ExternalIdentifier
  pub aliases : List Text

pub record AddIdentifierRequest : Type 0 where
  pub identifier : ExternalIdentifier

pub record ResolveToolRequest : Type 0 where
  pub intake_version : Text
  pub name : Text
  pub tool_type : ToolType
  pub urls : List Text

pub data ResolutionStatus : Type 0 where
  resolved create_candidate needs_review : ResolutionStatus

pub data ReasonCode : Type 0 where
  existing_identifier_match new_strong_identifier name_only name_match_only : ReasonCode
  invalid_or_ambiguous_url multiple_strong_identifiers : ReasonCode
  conflicting_existing_identifiers possible_fork_or_source_migration : ReasonCode
  additional_identifier_requires_review : ReasonCode

pub record ResolutionResponse : Type 0 where
  pub resolution_version : Text
  pub status : ResolutionStatus
  pub normalized_identifiers : List ExternalIdentifier
  pub tool_id : Option Text
  pub candidate_tool_ids : List Text
  pub reason_codes : List ReasonCode
