-- ===== src/Domain/Json.antt =====
-- backend/src/domain: how serde writes Passports and Evidence Manifests as JSON.
use aleth_os_tool_passport.Prelude.{ℕ, Option, none, some, List, [], ◌∷◌, Text, codes}
use aleth_os_tool_passport.Platform.{Platform}
use aleth_os_tool_passport.Domain.RunEvent.{
  Value, Values, Fields, null, num, str, arr, obj, nil, cons, field, end,
}
use aleth_os_tool_passport.Domain.Board
use aleth_os_tool_passport.Domain.Board.{ClaimStatus, EvidenceManifestEntry, FrozenEvidenceManifest}
use aleth_os_tool_passport.Domain.CheckResults.{rating_str}
use aleth_os_tool_passport.Domain.Passport
use aleth_os_tool_passport.Domain.Passport.{
  Severity, PassportStatement, PassportRisk, PassportScores, Recommendation, Passport,
}

-- a value that is not there is `null`
abbrev pub or_null {ℓ} : {A : Type ℓ} → (A → Value) → Option A → Value
or_null f none = null
or_null f (some a) = f a

abbrev pub array {ℓ} : {A : Type ℓ} → (A → Value) → List A → Values
array f [] = nil
array f (x ∷ xs) = cons (f x) (array f xs)

-- the variants in snake_case
unfoldable pub severity_str : Severity → Text
severity_str Passport.critical = codes "critical"
severity_str Passport.high = codes "high"
severity_str Passport.medium = codes "medium"
severity_str Passport.low = codes "low"
severity_str Passport.unknown = codes "unknown"

unfoldable pub claim_status_str : ClaimStatus → Text
claim_status_str Board.supported = codes "supported"
claim_status_str Board.partially_supported = codes "partially_supported"
claim_status_str Board.unsupported = codes "unsupported"
claim_status_str Board.contradicted = codes "contradicted"
claim_status_str Board.not_checked = codes "not_checked"

module _ (p : Platform) where
  abbrev pub uuid_value : ℕ → Value
  uuid_value id = str (p.uuid_text id)

  unfoldable pub statement_value : PassportStatement → Value
  statement_value s = obj (
      field (codes "statement_id") (str s.statement_id) (
        field (codes "statement") (str s.statement) (
          field (codes "status") (str (claim_status_str s.status))
            (field (codes "evidence_ids") (arr (array uuid_value s.evidence_ids)) end))))

  unfoldable pub risk_value : PassportRisk → Value
  risk_value r = obj (
      field (codes "risk_id") (str r.risk_id) (
        field (codes "title") (str r.title) (
          field (codes "severity") (str (severity_str r.severity)) (
            field (codes "description") (str r.description) (
              field (codes "mitigation") (or_null str r.mitigation)
                (field (codes "evidence_ids") (arr (array uuid_value r.evidence_ids)) end))))))

  unfoldable pub scores_value : PassportScores → Value
  scores_value s =
      let d = s.dimensions in
      obj (
        field (codes "dimensions")
          (obj (
            field (codes "capability_clarity") (num d.capability_clarity) (
              field (codes "interface_openness") (num d.interface_openness) (
                field (codes "automation_readiness") (num d.automation_readiness) (
                  field (codes "data_portability") (num d.data_portability) (
                    field (codes "permission_risk") (num d.permission_risk) (
                      field (codes "evidence_quality") (num d.evidence_quality)
                        (field (codes "ecosystem_fit") (num d.ecosystem_fit) end))))))))
          (field (codes "total_score") (num s.total_score)
            (field (codes "rating") (str (rating_str s.rating)) end)))

  unfoldable pub recommendation_value : Recommendation → Value
  recommendation_value r = obj (
      field (codes "summary") (str r.summary)
        (field (codes "conditions") (arr (array str r.conditions)) end))

  -- the narrative members, and then the scores
  unfoldable pub narrative_fields : Passport → Fields
  narrative_fields x =
      field (codes "capability_claims") (arr (array statement_value x.capability_claims)) (
        field (codes "interfaces") (arr (array statement_value x.interfaces)) (
          field (codes "risks") (arr (array risk_value x.risks)) (
            field (codes "known_gaps") (arr (array str x.known_gaps)) (
              field (codes "scores") (scores_value x.scores)
                (field (codes "recommendation") (recommendation_value x.recommendation) end)))))

  unfoldable pub passport_value : Passport → Value
  passport_value x = obj (
      field (codes "passport_version") (str x.passport_version) (
        field (codes "passport_sequence") (num x.passport_sequence) (
          field (codes "tool_id") (str x.tool_id) (
            field (codes "run_id") (uuid_value x.run_id) (
              field (codes "tool_type") (str x.tool_type) (
                field (codes "target_revision") (or_null str x.target_revision) (
                  field (codes "audit_scope") (str x.audit_scope) (
                    field (codes "standard_id") (str x.standard_id) (
                      field (codes "standard_version") (str x.standard_version) (
                        field (codes "profile_id") (str x.profile_id) (
                          field (codes "profile_version") (str x.profile_version) (
                            field (codes "evidence_board_version") (num x.evidence_board_version) (
                              field (codes "check_results_id") (uuid_value x.check_results_id)
                                (narrative_fields x))))))))))))))

  unfoldable pub entry_value : EvidenceManifestEntry → Value
  entry_value e = obj (
      field (codes "evidence_id") (uuid_value e.evidence_id) (
        field (codes "content_hash") (str e.content_hash) (
          field (codes "snapshot_artifact_id") (or_null uuid_value e.snapshot_artifact_id)
            (field (codes "snapshot_hash") (or_null str e.snapshot_hash) end))))

  unfoldable pub manifest_value : FrozenEvidenceManifest → Value
  manifest_value m = obj (
      field (codes "evidence_manifest_schema_version") (str m.evidence_manifest_schema_version) (
        field (codes "run_id") (uuid_value m.run_id) (
          field (codes "evidence_board_version") (num m.evidence_board_version)
            (field (codes "entries") (arr (array entry_value m.entries)) end))))
