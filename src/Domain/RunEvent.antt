-- ===== src/Domain/RunEvent.antt =====
-- backend/src/domain/run_event.rs: the events of a run, and the JSON values that they carry.
use aleth_os_tool_passport.Prelude.{ℕ, Bool, Option, none, some, if◌then◌else◌, Text, codes, ◌=ₜ◌}

-- `serde_json::Value`; an object is an association list. `num` is a number that is a natural number,
-- `other_num` a negative or fractional one, as it is written.
mutual
  pub data Value : Type 0 where
    null : Value
    bool : Bool → Value
    num : ℕ → Value
    other_num : Text → Value
    str : Text → Value
    arr : Values → Value
    obj : Fields → Value

  pub data Values : Type 0 where
    nil : Values
    cons : Value → Values → Values

  pub data Fields : Type 0 where
    end : Fields
    field : Text → Value → Fields → Fields

-- `Map::get`
abbrev pub get : Text → Fields → Option Value
get key end = none
get key (field k v rest) = if k =ₜ key then some v else get key rest

-- `Value::as_str`
abbrev pub as_text : Value → Option Text
as_text (str s) = some s
as_text _ = none

pub data RunEventType : Type 0 where
  run_created run_status_changed node_started node_finished : RunEventType
  artifact_created evidence_created approval_required approval_resolved : RunEventType
  attestation_submitted attestation_confirmed error profile_selected : RunEventType
  hypothesis_created hypothesis_updated research_query_planned gap_detected : RunEventType
  evidence_linked claim_contradicted evidence_board_frozen review_issue_found : RunEventType
  score_changed directives_accepted human_feedback_received provenance_frozen : RunEventType

unfoldable pub as_str : RunEventType → Text
as_str run_created = codes "run_created"
as_str run_status_changed = codes "run_status_changed"
as_str node_started = codes "node_started"
as_str node_finished = codes "node_finished"
as_str artifact_created = codes "artifact_created"
as_str evidence_created = codes "evidence_created"
as_str approval_required = codes "approval_required"
as_str approval_resolved = codes "approval_resolved"
as_str attestation_submitted = codes "attestation_submitted"
as_str attestation_confirmed = codes "attestation_confirmed"
as_str error = codes "error"
as_str profile_selected = codes "profile_selected"
as_str hypothesis_created = codes "hypothesis_created"
as_str hypothesis_updated = codes "hypothesis_updated"
as_str research_query_planned = codes "research_query_planned"
as_str gap_detected = codes "gap_detected"
as_str evidence_linked = codes "evidence_linked"
as_str claim_contradicted = codes "claim_contradicted"
as_str evidence_board_frozen = codes "evidence_board_frozen"
as_str review_issue_found = codes "review_issue_found"
as_str score_changed = codes "score_changed"
as_str directives_accepted = codes "directives_accepted"
as_str human_feedback_received = codes "human_feedback_received"
as_str provenance_frozen = codes "provenance_frozen"

unfoldable pub parse : Text → Option RunEventType
parse value =
    if value =ₜ codes "run_created"
    then some run_created
    else if value =ₜ codes "run_status_changed"
    then some run_status_changed
    else if value =ₜ codes "node_started"
    then some node_started
    else if value =ₜ codes "node_finished"
    then some node_finished
    else if value =ₜ codes "artifact_created"
    then some artifact_created
    else if value =ₜ codes "evidence_created"
    then some evidence_created
    else if value =ₜ codes "approval_required"
    then some approval_required
    else if value =ₜ codes "approval_resolved"
    then some approval_resolved
    else if value =ₜ codes "attestation_submitted"
    then some attestation_submitted
    else if value =ₜ codes "attestation_confirmed"
    then some attestation_confirmed
    else if value =ₜ codes "error"
    then some error
    else if value =ₜ codes "profile_selected"
    then some profile_selected
    else if value =ₜ codes "hypothesis_created"
    then some hypothesis_created
    else if value =ₜ codes "hypothesis_updated"
    then some hypothesis_updated
    else if value =ₜ codes "research_query_planned"
    then some research_query_planned
    else if value =ₜ codes "gap_detected"
    then some gap_detected
    else if value =ₜ codes "evidence_linked"
    then some evidence_linked
    else if value =ₜ codes "claim_contradicted"
    then some claim_contradicted
    else if value =ₜ codes "evidence_board_frozen"
    then some evidence_board_frozen
    else if value =ₜ codes "review_issue_found"
    then some review_issue_found
    else if value =ₜ codes "score_changed"
    then some score_changed
    else if value =ₜ codes "directives_accepted"
    then some directives_accepted
    else if value =ₜ codes "human_feedback_received"
    then some human_feedback_received
    else if value =ₜ codes "provenance_frozen"
    then some provenance_frozen
    else none

pub record AppendRunEventRequest : Type 0 where
  pub node_id : Text
  pub event_type : RunEventType
  pub payload : Fields

-- the hash before the first event of a run
abbrev pub zero_hash : Text
zero_hash = codes "0x0000000000000000000000000000000000000000000000000000000000000000"

pub record RunEvent : Type 0 where
  pub event_id : ℕ
  pub run_id : ℕ
  pub sequence : ℕ
  pub node_id : Text
  pub event_type : RunEventType
  pub payload : Fields
  pub created_at : ℕ
  pub event_hash : Text
  pub prev_event_hash : Text
