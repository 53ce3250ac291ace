-- ===== src/Service/Composed/Normalised.antt =====
-- The narrative of a Passport after its normalisation.
use aleth_os_tool_passport.Prelude.{ℕ, ◌≡◌, refl, subst, List, ok, >>=-eq-ok, ok_injective}
use aleth_os_tool_passport.Platform.{Platform}
use aleth_os_tool_passport.Domain.Passport.{PassportStatement, PassportRisk, FreezePassportRequest}
use aleth_os_tool_passport.Service.Requests.{validate_non_empty}
use aleth_os_tool_passport.Service.References.{
  normalize_evidence_references, IsClosed, normalize_evidence_references-IsClosed,
}
use aleth_os_tool_passport.Service.Named.{IsListed, each_named-IsListed}
use aleth_os_tool_passport.Service.Passports.{
  normalize_recommendation, normalize_known_gaps, duplicated_statement, duplicated_risk,
  normalize_mitigation, normalize_statement, normalize_risk, normalize_statements, normalize_risks,
  Narrative, narrative_of,
}

-- the narrative of a Passport: everything on evidence of the board
pub record IsNarrative (p : Platform) (board : List ℕ) (cs is : List PassportStatement)
    (rs : List PassportRisk) : Type 0 where
  pub claims : IsListed (λ s. s.statement_id) (λ s. IsClosed p board s.evidence_ids) cs
  pub interfaces : IsListed (λ s. s.statement_id) (λ s. IsClosed p board s.evidence_ids) is
  pub risks : IsListed (λ r. r.risk_id) (λ r. IsClosed p board r.evidence_ids) rs

module _ (p : Platform) where
  normalize_statement-IsClosed :
      (board : List ℕ) (s t : PassportStatement)
      → normalize_statement p board s ≡ ok t
      → (t.statement_id ≡ s.statement_id) × IsClosed p board t.evidence_ids
  unfolding normalize_statement
  normalize_statement-IsClosed board s t h =
      let (_, written, h₁) = >>=-eq-ok (validate_non_empty "statement" s.statement) _ h in
      let (ids, closed, h₂) =
        >>=-eq-ok
          (normalize_evidence_references p s.statement_id "evidence_ids" s.evidence_ids board) _
          h₁ in
      subst (λ x. (x.statement_id ≡ s.statement_id) × IsClosed p board x.evidence_ids)
        (ok_injective h₂)
        (
          refl,
          normalize_evidence_references-IsClosed p s.statement_id "evidence_ids" s.evidence_ids
              board closed,
        )

  normalize_risk-IsClosed :
      (board : List ℕ) (r q : PassportRisk)
      → normalize_risk p board r ≡ ok q
      → (q.risk_id ≡ r.risk_id) × IsClosed p board q.evidence_ids
  unfolding normalize_risk
  normalize_risk-IsClosed board r q h =
      let (_, titled, h₁) = >>=-eq-ok (validate_non_empty "risk title" r.title) _ h in
      let (_, described, h₂) =
        >>=-eq-ok (validate_non_empty "risk description" r.description) _ h₁ in
      let (ids, closed, h₃) =
        >>=-eq-ok (normalize_evidence_references p r.risk_id "evidence_ids" r.evidence_ids board) _
          h₂ in
      let (m, _, h₄) = >>=-eq-ok (normalize_mitigation r.risk_id r.mitigation) _ h₃ in
      subst (λ x. (x.risk_id ≡ r.risk_id) × IsClosed p board x.evidence_ids) (ok_injective h₄)
        (
          refl,
          normalize_evidence_references-IsClosed p r.risk_id "evidence_ids" r.evidence_ids board
              closed,
        )

  pub narrative_of-IsNarrative :
      (board : List ℕ) (request : FreezePassportRequest) (n : Narrative)
      → narrative_of p board request ≡ ok n
      → IsNarrative p board n.capability_claims n.interfaces n.risks
  unfolding narrative_of normalize_statements normalize_risks
  narrative_of-IsNarrative board request n h =
      let (_, _, h₁) = >>=-eq-ok (normalize_recommendation request.recommendation) _ h in
      let (cs, claimed, h₂) =
        >>=-eq-ok (normalize_statements p board "capability_claims" request.capability_claims) _
          h₁ in
      let (is, offered, h₃) =
        >>=-eq-ok (normalize_statements p board "interfaces" request.interfaces) _ h₂ in
      let (rs, risky, h₄) = >>=-eq-ok (normalize_risks p board request.risks) _ h₃ in
      let (_, _, h₅) = >>=-eq-ok (normalize_known_gaps request.known_gaps) _ h₄ in
      subst (λ x. IsNarrative p board x.capability_claims x.interfaces x.risks) (ok_injective h₅)
        (record {
          claims =
              each_named-IsListed (λ s. s.statement_id) "statement_id"
                (duplicated_statement "capability_claims") (normalize_statement p board)
                (λ s. IsClosed p board s.evidence_ids) (normalize_statement-IsClosed board)
                request.capability_claims cs claimed;
          interfaces =
              each_named-IsListed (λ s. s.statement_id) "statement_id"
                (duplicated_statement "interfaces") (normalize_statement p board)
                (λ s. IsClosed p board s.evidence_ids) (normalize_statement-IsClosed board)
                request.interfaces is offered;
          risks =
              each_named-IsListed (λ r. r.risk_id) "risk_id" duplicated_risk
                (normalize_risk p board) (λ r. IsClosed p board r.evidence_ids)
                (normalize_risk-IsClosed board) request.risks rs risky;
        })
