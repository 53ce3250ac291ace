-- ===== src/Service/Passports.antt =====
-- `freeze_passport` in backend/src/services/mod.rs, with its normalisation.
use aleth_os_tool_passport.Prelude.{
  ℕ, Bool, not, ◌||◌, Option, none, some, List, [], ◌∷◌, map, if◌then◌else◌, Text, String, codes,
  ◌=ₜ◌, is_empty, trim, Result, ok, ◌>>=◌, ◌>>◌, refuse, ok_or, map_err, format, says, sort_on,
  keep,
}
use aleth_os_tool_passport.Platform.{Platform}
use aleth_os_tool_passport.Domain.Run.{Run, AuditBinding}
use aleth_os_tool_passport.Domain.RunEvent.{RunEvent, provenance_frozen, num, str, field, end}
use aleth_os_tool_passport.Domain.Board.{EvidenceFreezeResult}
use aleth_os_tool_passport.Domain.CheckResults.{CheckResults}
use aleth_os_tool_passport.Domain.Passport.{
  PassportStatement, PassportRisk, Recommendation, PassportScores, Passport, Provenance,
  FreezePassportRequest, PassportFreezeResult,
}
use aleth_os_tool_passport.Domain.Json.{passport_value, manifest_value}
use aleth_os_tool_passport.Errors.{
  RepositoryError, unique_violation, ServiceError, run_not_found, invalid_request,
  passport_already_frozen, passport_not_found, repository,
}
use aleth_os_tool_passport.Store.{Db}
use aleth_os_tool_passport.Store.Events.{get_run, sha256_hex, canonical_sha256}
use aleth_os_tool_passport.Store.Boards.{get_evidence_freeze, get_check_results}
use aleth_os_tool_passport.Store.Freezes
use aleth_os_tool_passport.Store.Freezes.{next_passport_sequence}
use aleth_os_tool_passport.Service.{World, parse_run_id, ensure_run_exists, generated_event}
use aleth_os_tool_passport.Service.Requests.{
  validate_non_empty, validate_evidence_board_version, validate_passport_sequence, decimal,
}
use aleth_os_tool_passport.Service.References.{normalize_evidence_references}
use aleth_os_tool_passport.Service.Named.{each_named}
use aleth_os_tool_passport.Service.Checks.{not_frozen}

-- the ID and the times that the call draws
pub record Fresh : Type 0 where
  pub frozen_at : ℕ
  pub event_id : ℕ
  pub event_at : ℕ

unfoldable pub validate_passport_header : FreezePassportRequest → Result ServiceError (Unit {0})
validate_passport_header request = do
  refuse (not (request.passport_version =ₜ codes "0.2.0"))
      (invalid_request (says "passport_version must be 0.2.0"))
  validate_evidence_board_version request.evidence_board_version
  validate_non_empty "audit_scope" request.audit_scope

unfoldable pub verify_binding_matches : AuditBinding → CheckResults → Result ServiceError (Unit {0})
verify_binding_matches binding r =
    refuse
      (not (binding.standard_id =ₜ r.standard_id)
        || not (binding.standard_version =ₜ r.standard_version)
        || not (binding.profile_id =ₜ r.profile_id)
        || not (binding.profile_version =ₜ r.profile_version))
      (invalid_request (says "check results binding does not match the run audit binding"))

unfoldable pub passport_scores : CheckResults → PassportScores
passport_scores r =
    let d = r.dimension_scores in
    record {
      dimensions = record {
        capability_clarity = d.capability_clarity.score;
        interface_openness = d.interface_openness.score;
        automation_readiness = d.automation_readiness.score;
        data_portability = d.data_portability.score;
        permission_risk = d.permission_risk.score;
        evidence_quality = d.evidence_quality.score;
        ecosystem_fit = d.ecosystem_fit.score;
      };
      total_score = r.total_score;
      rating = r.rating;
    }

unfoldable pub normalize_recommendation : Recommendation → Result ServiceError Recommendation
normalize_recommendation r = do
  validate_non_empty "recommendation summary" r.summary
  ok (record {
    summary = trim r.summary;
    conditions = keep (λ c. not (is_empty c)) (map trim r.conditions);
  })

unfoldable pub normalize_known_gaps : List Text → Result ServiceError (List Text)
normalize_known_gaps [] = ok []
normalize_known_gaps (gap ∷ gaps) = do
  validate_non_empty "known gap" gap
  rest ← normalize_known_gaps gaps
  ok (trim gap ∷ rest)

abbrev pub duplicated_statement : String → Text → ServiceError
duplicated_statement name id =
    invalid_request (format "{} statement ID {} is duplicated" (codes name ∷ id ∷ []))

abbrev pub duplicated_risk : Text → ServiceError
duplicated_risk id = invalid_request (format "risk ID {} is duplicated" (id ∷ []))

unfoldable pub normalize_mitigation : Text → Option Text → Result ServiceError (Option Text)
normalize_mitigation risk_id none = ok none
normalize_mitigation risk_id (some mitigation) = do
  refuse (is_empty (trim mitigation))
      (invalid_request (format "risk {} mitigation must not be empty when present" (risk_id ∷ [])))
  ok (some (trim mitigation))

-- `.map(str::trim).filter(|value| !value.is_empty())`
unfoldable pub trimmed_revision : Option Text → Option Text
trimmed_revision none = none
trimmed_revision (some revision) = if is_empty (trim revision) then none else some (trim revision)

module _ (p : Platform) (board : List ℕ) where
  -- the rest of the bodies of the two loops
  unfoldable pub normalize_statement : PassportStatement → Result ServiceError PassportStatement
  normalize_statement s = do
    validate_non_empty "statement" s.statement
    ids ← normalize_evidence_references p s.statement_id "evidence_ids" s.evidence_ids board
    ok (record s { evidence_ids = ids; statement = trim s.statement })

  unfoldable pub normalize_risk : PassportRisk → Result ServiceError PassportRisk
  normalize_risk r = do
    validate_non_empty "risk title" r.title
    validate_non_empty "risk description" r.description
    ids ← normalize_evidence_references p r.risk_id "evidence_ids" r.evidence_ids board
    mitigation ← normalize_mitigation r.risk_id r.mitigation
    ok (record r {
      evidence_ids = ids;
      title = trim r.title;
      description = trim r.description;
      mitigation = mitigation;
    })

  unfoldable pub normalize_statements :
      String → List PassportStatement → Result ServiceError (List PassportStatement)
  normalize_statements name =
      each_named (λ s. s.statement_id) "statement_id" (duplicated_statement name)
        normalize_statement []

  unfoldable pub normalize_risks : List PassportRisk → Result ServiceError (List PassportRisk)
  normalize_risks = each_named (λ r. r.risk_id) "risk_id" duplicated_risk normalize_risk []

-- the parts that the narrative of a Passport is made of, normalised and sorted
pub record Narrative : Type 0 where
  pub recommendation : Recommendation
  pub capability_claims : List PassportStatement
  pub interfaces : List PassportStatement
  pub risks : List PassportRisk
  pub known_gaps : List Text

unfoldable pub narrative_of :
    Platform → List ℕ → FreezePassportRequest → Result ServiceError Narrative
narrative_of p board request = do
  recommendation ← normalize_recommendation request.recommendation
  claims ← normalize_statements p board "capability_claims" request.capability_claims
  interfaces ← normalize_statements p board "interfaces" request.interfaces
  risks ← normalize_risks p board request.risks
  gaps ← normalize_known_gaps request.known_gaps
  ok (record {
    recommendation = recommendation;
    capability_claims = sort_on (λ s. s.statement_id) claims;
    interfaces = sort_on (λ s. s.statement_id) interfaces;
    risks = sort_on (λ r. r.risk_id) risks;
    known_gaps = gaps;
  })

unfoldable pub passport_of : Run → ℕ → CheckResults → FreezePassportRequest → Narrative → Passport
passport_of run sequence results request n = record {
  passport_version = codes "0.2.0";
  passport_sequence = sequence;
  tool_id = run.tool_id;
  run_id = run.run_id;
  tool_type = run.tool.tool_type;
  target_revision = trimmed_revision request.target_revision;
  audit_scope = trim request.audit_scope;
  standard_id = run.audit_binding.standard_id;
  standard_version = run.audit_binding.standard_version;
  profile_id = run.audit_binding.profile_id;
  profile_version = run.audit_binding.profile_version;
  evidence_board_version = request.evidence_board_version;
  check_results_id = results.check_results_id;
  capability_claims = n.capability_claims;
  interfaces = n.interfaces;
  risks = n.risks;
  known_gaps = n.known_gaps;
  scores = passport_scores results;
  recommendation = n.recommendation;
}

unfoldable pub provenance_of : Platform → Fresh → EvidenceFreezeResult → Passport → Provenance
provenance_of p fresh freeze x = record {
  provenance_schema_version = codes "0.1.0";
  run_id = x.run_id;
  freeze_version = x.passport_sequence;
  evidence_board_version = x.evidence_board_version;
  passport_sequence = x.passport_sequence;
  passport_hash = canonical_sha256 p (passport_value p x);
  audit_log_hash = [];
  evidence_manifest_hash = canonical_sha256 p (manifest_value p freeze.evidence_manifest);
  onchain_run_id = sha256_hex p (p.uuid_text x.run_id);
  frozen_at = fresh.frozen_at;
}

unfoldable pub provenance_event : Fresh → Passport → Provenance → RunEvent
provenance_event fresh x v =
    generated_event fresh.event_id fresh.event_at x.run_id provenance_frozen (
      field (codes "evidence_board_version") (num x.evidence_board_version) (
        field (codes "freeze_version") (num x.passport_sequence) (
          field (codes "passport_hash") (str v.passport_hash)
            (field (codes "passport_sequence") (num x.passport_sequence) end))))

unfoldable pub passport_error : RepositoryError → ServiceError
passport_error unique_violation = passport_already_frozen
passport_error other = repository other

abbrev pub not_computed : ℕ → ServiceError
not_computed version =
    invalid_request
      (format "check results for evidence board version {} are not computed" (decimal version ∷ []))

-- the Passport and its provenance, before they are stored
unfoldable pub prepare_passport :
    Platform
    → Fresh
    → Db
    → ℕ
    → Run
    → FreezePassportRequest
    → Result ServiceError (Passport × Provenance)
prepare_passport p fresh db id run request = do
  freeze ←
      ok_or (not_frozen request.evidence_board_version)
        (get_evidence_freeze db id request.evidence_board_version)
  results ←
      ok_or (not_computed request.evidence_board_version)
        (get_check_results db id request.evidence_board_version)
  verify_binding_matches run.audit_binding results
  narrative ← narrative_of p freeze.evidence_board.evidence_ids request
  let passport = passport_of run (next_passport_sequence db id) results request narrative
  ok (passport, provenance_of p fresh freeze passport)

unfoldable pub freeze_passport :
    Platform
    → Bool
    → Fresh
    → Text
    → FreezePassportRequest
    → World
    → Result ServiceError (PassportFreezeResult × World)
freeze_passport p read fresh run_id request w = do
  id ← parse_run_id p run_id
  run ← ok_or run_not_found (get_run w.db id)
  validate_passport_header request
  (passport, provenance) ← prepare_passport p fresh w.db id run request
  let event = provenance_event fresh passport provenance
  (frozen, db) ←
      map_err passport_error (Freezes.create_passport_freeze p read w.db passport provenance event)
  ok (frozen, record w { db = db; broadcasts = event ∷ w.broadcasts })

unfoldable pub get_passport_freeze :
    Platform → Text → ℕ → World → Result ServiceError PassportFreezeResult
get_passport_freeze p run_id sequence w = do
  id ← parse_run_id p run_id
  validate_passport_sequence sequence
  ensure_run_exists w.db id
  ok_or passport_not_found (Freezes.get_passport_freeze w.db id sequence)
