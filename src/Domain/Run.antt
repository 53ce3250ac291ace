-- ===== src/Domain/Run.antt =====
-- backend/src/domain/run.rs: a run, its status and the audit catalog that it is bound to.
use aleth_os_tool_passport.Prelude.{
  ℕ, ◌≡◌, Bool, true, false, Option, none, some, List, arith, if◌then◌else◌, Text, codes, ◌=ₜ◌,
}

pub record AuditBinding : Type 0 where
  pub standard_id : Text
  pub standard_version : Text
  pub profile_id : Text
  pub profile_version : Text

pub record ToolInput : Type 0 where
  pub name : Text
  pub tool_type : Text
  pub urls : List Text

pub record CreateRunRequest : Type 0 where
  pub goal : Text
  pub tool_id : Text

pub data RunStatus : Type 0 where
  pending running success failed waiting_approval cancelled : RunStatus

abbrev pub same_status : RunStatus → RunStatus → Bool
same_status pending pending = true
same_status running running = true
same_status success success = true
same_status failed failed = true
same_status waiting_approval waiting_approval = true
same_status cancelled cancelled = true
same_status _ _ = false

pub same_status→≡ : (s t : RunStatus) → same_status s t ≡ true → s ≡ t
same_status→≡ s t h = ground arith

pub same_status_refl : (s : RunStatus) → same_status s s ≡ true
same_status_refl s = ground arith

unfoldable pub as_str : RunStatus → Text
as_str pending = codes "pending"
as_str running = codes "running"
as_str success = codes "success"
as_str failed = codes "failed"
as_str waiting_approval = codes "waiting_approval"
as_str cancelled = codes "cancelled"

unfoldable pub parse : Text → Option RunStatus
parse value =
    if value =ₜ codes "pending"
    then some pending
    else if value =ₜ codes "running"
    then some running
    else if value =ₜ codes "success"
    then some success
    else if value =ₜ codes "failed"
    then some failed
    else if value =ₜ codes "waiting_approval"
    then some waiting_approval
    else if value =ₜ codes "cancelled"
    then some cancelled
    else none

-- `run_id`s are UUIDs as 128-bit numbers; a time is a count of microseconds.
pub record Run : Type 0 where
  pub run_id : ℕ
  pub goal : Text
  pub tool_id : Text
  pub canonical_url : Text
  pub tool : ToolInput
  pub audit_binding : AuditBinding
  pub status : RunStatus
  pub current_node : Option Text
  pub created_at : ℕ
  pub updated_at : ℕ
