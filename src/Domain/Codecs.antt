-- ===== src/Domain/Codecs.antt =====
-- The texts of the enumerations in backend/src/domain, as they are written and read.
use aleth_os_tool_passport.Prelude.{
  ◌≡◌, refl, ◌↔◌, inl, inr, ◌∙◌, Option, none, some, arith, if◌then◌else◌, Text, ◌=ₜ◌, =ₜ→≡, ap,
  Bool-cases,
}
use aleth_os_tool_passport.Domain.Run
use aleth_os_tool_passport.Domain.Run.{RunStatus}
use aleth_os_tool_passport.Domain.RunEvent
use aleth_os_tool_passport.Domain.RunEvent.{RunEventType}
use aleth_os_tool_passport.Domain.Tool
use aleth_os_tool_passport.Domain.Tool.{ToolType}
use aleth_os_tool_passport.Domain.Evidence
use aleth_os_tool_passport.Domain.Evidence.{EvidenceSourceType}
use aleth_os_tool_passport.Domain.CheckResults
use aleth_os_tool_passport.Domain.CheckResults.{Rating}

-- what it is for a parser's result to be the value that the text is written for
abbrev Reads {ℓ} : {A : Type ℓ} → (A → Text) → Text → Option A → Type ℓ
Reads as_str s o = (a : _) → o ≡ some a → s ≡ as_str a

none-Reads {ℓ} : {A : Type ℓ} (as_str : A → Text) (s : Text) → Reads as_str s none
none-Reads as_str s a h = cc

-- one arm of a parser, and those after it
arm-Reads {ℓ} :
    {A : Type ℓ} (as_str : A → Text) (a : A) (s : Text) (rest : Option A)
    → Reads as_str s rest
    → Reads as_str s (if s =ₜ as_str a then some a else rest)
arm-Reads as_str a s rest other b h = elim (Bool-cases (s =ₜ as_str a)) [
  | inl same ↦ =ₜ→≡ s (as_str a) same ∙ ap as_str (ground arith)
  | inr apart ↦ other b (ground arith)
]

status_texts : (s : Text) → Reads Run.as_str s (Run.parse s)
unfolding Run.parse Run.as_str
status_texts s = arm-Reads Run.as_str Run.pending s _ (
    arm-Reads Run.as_str Run.running s _ (
      arm-Reads Run.as_str Run.success s _ (
        arm-Reads Run.as_str Run.failed s _ (
          arm-Reads Run.as_str Run.waiting_approval s _
            (arm-Reads Run.as_str Run.cancelled s _ (none-Reads Run.as_str s))))))

status_texts_back : (a : RunStatus) → Run.parse (Run.as_str a) ≡ some a
unfolding Run.parse Run.as_str
status_texts_back Run.pending = refl
status_texts_back Run.running = refl
status_texts_back Run.success = refl
status_texts_back Run.failed = refl
status_texts_back Run.waiting_approval = refl
status_texts_back Run.cancelled = refl

event_type_texts : (s : Text) → Reads RunEvent.as_str s (RunEvent.parse s)
unfolding RunEvent.parse RunEvent.as_str
event_type_texts s = arm-Reads RunEvent.as_str RunEvent.run_created s _ (
    arm-Reads RunEvent.as_str RunEvent.run_status_changed s _ (
      arm-Reads RunEvent.as_str RunEvent.node_started s _ (
        arm-Reads RunEvent.as_str RunEvent.node_finished s _ (
          arm-Reads RunEvent.as_str RunEvent.artifact_created s _ (
            arm-Reads RunEvent.as_str RunEvent.evidence_created s _ (
              arm-Reads RunEvent.as_str RunEvent.approval_required s _ (
                arm-Reads RunEvent.as_str RunEvent.approval_resolved s _ (
                  arm-Reads RunEvent.as_str RunEvent.attestation_submitted s _ (
                    arm-Reads RunEvent.as_str RunEvent.attestation_confirmed s _ (
                      arm-Reads RunEvent.as_str RunEvent.error s _ (
                        arm-Reads RunEvent.as_str RunEvent.profile_selected s _ (
                          arm-Reads RunEvent.as_str RunEvent.hypothesis_created s _ (
                            arm-Reads RunEvent.as_str RunEvent.hypothesis_updated s _ (
                              arm-Reads RunEvent.as_str RunEvent.research_query_planned s _ (
                                arm-Reads RunEvent.as_str RunEvent.gap_detected s _ (
                                  arm-Reads RunEvent.as_str RunEvent.evidence_linked s _ (
                                    arm-Reads RunEvent.as_str RunEvent.claim_contradicted s _ (
                                      arm-Reads RunEvent.as_str RunEvent.evidence_board_frozen s _ (
                                        arm-Reads RunEvent.as_str RunEvent.review_issue_found s _ (
                                          arm-Reads RunEvent.as_str RunEvent.score_changed s _ (
                                            arm-Reads RunEvent.as_str RunEvent.directives_accepted s
                                              _
                                              (arm-Reads RunEvent.as_str
                                                RunEvent.human_feedback_received s _
                                                (arm-Reads RunEvent.as_str
                                                  RunEvent.provenance_frozen s _
                                                  (none-Reads RunEvent.as_str
                                                    s))))))))))))))))))))))))

event_type_texts_back : (a : RunEventType) → RunEvent.parse (RunEvent.as_str a) ≡ some a
unfolding RunEvent.parse RunEvent.as_str
event_type_texts_back RunEvent.run_created = refl
event_type_texts_back RunEvent.run_status_changed = refl
event_type_texts_back RunEvent.node_started = refl
event_type_texts_back RunEvent.node_finished = refl
event_type_texts_back RunEvent.artifact_created = refl
event_type_texts_back RunEvent.evidence_created = refl
event_type_texts_back RunEvent.approval_required = refl
event_type_texts_back RunEvent.approval_resolved = refl
event_type_texts_back RunEvent.attestation_submitted = refl
event_type_texts_back RunEvent.attestation_confirmed = refl
event_type_texts_back RunEvent.error = refl
event_type_texts_back RunEvent.profile_selected = refl
event_type_texts_back RunEvent.hypothesis_created = refl
event_type_texts_back RunEvent.hypothesis_updated = refl
event_type_texts_back RunEvent.research_query_planned = refl
event_type_texts_back RunEvent.gap_detected = refl
event_type_texts_back RunEvent.evidence_linked = refl
event_type_texts_back RunEvent.claim_contradicted = refl
event_type_texts_back RunEvent.evidence_board_frozen = refl
event_type_texts_back RunEvent.review_issue_found = refl
event_type_texts_back RunEvent.score_changed = refl
event_type_texts_back RunEvent.directives_accepted = refl
event_type_texts_back RunEvent.human_feedback_received = refl
event_type_texts_back RunEvent.provenance_frozen = refl

tool_type_texts : (s : Text) → Reads Tool.as_str s (Tool.parse s)
unfolding Tool.parse Tool.as_str
tool_type_texts s = arm-Reads Tool.as_str Tool.generic s _ (
    arm-Reads Tool.as_str Tool.agent_framework s _ (
      arm-Reads Tool.as_str Tool.mcp_server s _
        (arm-Reads Tool.as_str Tool.cli_api_tool s _ (none-Reads Tool.as_str s))))

tool_type_texts_back : (a : ToolType) → Tool.parse (Tool.as_str a) ≡ some a
unfolding Tool.parse Tool.as_str
tool_type_texts_back Tool.generic = refl
tool_type_texts_back Tool.agent_framework = refl
tool_type_texts_back Tool.mcp_server = refl
tool_type_texts_back Tool.cli_api_tool = refl

source_type_texts : (s : Text) → Reads Evidence.as_str s (Evidence.parse s)
unfolding Evidence.parse Evidence.as_str
source_type_texts s = arm-Reads Evidence.as_str Evidence.user_material s _ (
    arm-Reads Evidence.as_str Evidence.official_website s _ (
      arm-Reads Evidence.as_str Evidence.official_docs s _ (
        arm-Reads Evidence.as_str Evidence.github_readme s _ (
          arm-Reads Evidence.as_str Evidence.github_metadata s _ (
            arm-Reads Evidence.as_str Evidence.public_example s _
              (none-Reads Evidence.as_str s))))))

source_type_texts_back : (a : EvidenceSourceType) → Evidence.parse (Evidence.as_str a) ≡ some a
unfolding Evidence.parse Evidence.as_str
source_type_texts_back Evidence.user_material = refl
source_type_texts_back Evidence.official_website = refl
source_type_texts_back Evidence.official_docs = refl
source_type_texts_back Evidence.github_readme = refl
source_type_texts_back Evidence.github_metadata = refl
source_type_texts_back Evidence.public_example = refl

rating_texts : (s : Text) → Reads CheckResults.rating_str s (CheckResults.parse s)
unfolding CheckResults.parse CheckResults.rating_str
rating_texts s = arm-Reads CheckResults.rating_str CheckResults.not_recommended s _ (
    arm-Reads CheckResults.rating_str CheckResults.manual_only s _ (
      arm-Reads CheckResults.rating_str CheckResults.trial s _ (
        arm-Reads CheckResults.rating_str CheckResults.low_risk s _ (
          arm-Reads CheckResults.rating_str CheckResults.core_candidate s _
            (none-Reads CheckResults.rating_str s)))))

rating_texts_back : (a : Rating) → CheckResults.parse (CheckResults.rating_str a) ≡ some a
unfolding CheckResults.parse CheckResults.rating_str
rating_texts_back CheckResults.not_recommended = refl
rating_texts_back CheckResults.manual_only = refl
rating_texts_back CheckResults.trial = refl
rating_texts_back CheckResults.low_risk = refl
rating_texts_back CheckResults.core_candidate = refl

-- For run statuses, event types, tool types, evidence source types and ratings, the parser accepts
-- a text as a value exactly if it is the text that is written for that value.
pub parse-as_str_iff :
    (s : Text)
    → ((a : RunStatus) → (Run.parse s ≡ some a) ↔ (s ≡ Run.as_str a))
      × ((a : RunEventType) → (RunEvent.parse s ≡ some a) ↔ (s ≡ RunEvent.as_str a))
      × ((a : ToolType) → (Tool.parse s ≡ some a) ↔ (s ≡ Tool.as_str a))
      × ((a : EvidenceSourceType) → (Evidence.parse s ≡ some a) ↔ (s ≡ Evidence.as_str a))
      × ((a : Rating) → (CheckResults.parse s ≡ some a) ↔ (s ≡ CheckResults.rating_str a))
parse-as_str_iff s = (
  (λ a. (status_texts s a, λ e. rw e (status_texts_back a))),
  (λ a. (event_type_texts s a, λ e. rw e (event_type_texts_back a))),
  (λ a. (tool_type_texts s a, λ e. rw e (tool_type_texts_back a))),
  (λ a. (source_type_texts s a, λ e. rw e (source_type_texts_back a))),
  (λ a. (rating_texts s a, λ e. rw e (rating_texts_back a))),
)
