-- ===== src/Domain/Evidence.antt =====
-- backend/src/domain/artifact.rs and evidence.rs.
use aleth_os_tool_passport.Prelude.{ℕ, Option, none, some, List, if◌then◌else◌, Text, codes, ◌=ₜ◌}
use aleth_os_tool_passport.Domain.RunEvent.{Fields}

pub record Artifact : Type 0 where
  pub artifact_schema_version : Text
  pub artifact_id : ℕ
  pub run_id : ℕ
  pub filename : Text
  pub content_type : Text
  pub size_bytes : ℕ
  pub sha256_hash : Text
  pub storage_key : Text
  pub created_at : ℕ

pub record CreateArtifactRequest : Type 0 where
  pub filename : Text
  pub content_type : Text

pub data EvidenceSourceType : Type 0 where
  user_material official_website official_docs : EvidenceSourceType
  github_readme github_metadata public_example : EvidenceSourceType

unfoldable pub as_str : EvidenceSourceType → Text
as_str user_material = codes "user_material"
as_str official_website = codes "official_website"
as_str official_docs = codes "official_docs"
as_str github_readme = codes "github_readme"
as_str github_metadata = codes "github_metadata"
as_str public_example = codes "public_example"

unfoldable pub parse : Text → Option EvidenceSourceType
parse value =
    if value =ₜ codes "user_material"
    then some user_material
    else if value =ₜ codes "official_website"
    then some official_website
    else if value =ₜ codes "official_docs"
    then some official_docs
    else if value =ₜ codes "github_readme"
    then some github_readme
    else if value =ₜ codes "github_metadata"
    then some github_metadata
    else if value =ₜ codes "public_example"
    then some public_example
    else none

pub record Evidence : Type 0 where
  pub evidence_schema_version : Text
  pub evidence_id : ℕ
  pub run_id : ℕ
  pub source_type : EvidenceSourceType
  pub source_url : Text
  pub source_revision : Option Text
  pub title : Text
  pub excerpt : Text
  pub retrieved_at : ℕ
  pub snapshot_artifact_id : Option ℕ
  pub supports : List Text
  pub contradicts : List Text
  pub metadata : Fields
  pub size_bytes : ℕ
  pub content_hash : Text
  pub storage_key : Text
  pub created_at : ℕ

pub record CreateEvidenceRequest : Type 0 where
  pub evidence_schema_version : Text
  pub source_type : EvidenceSourceType
  pub source_url : Text
  pub source_revision : Option Text
  pub title : Text
  pub excerpt : Text
  pub retrieved_at : ℕ
  pub snapshot_artifact_id : Option ℕ
  pub supports : List Text
  pub contradicts : List Text
  pub metadata : Fields
