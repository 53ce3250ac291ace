-- ===== src/Tests/Passports.antt =====
-- A Passport that is frozen on a board and its results.
use aleth_os_tool_passport.Prelude.{
  ◌≡◌, refl, true, none, [], ◌∷◌, codes, trim, ok, sort_on, starts_with, contains, insert_on,
  is_whitespace, le_text, trim_end, trim_start,
}
use aleth_os_tool_passport.Domain.Json.{
  claim_status_str, entry_value, manifest_value, narrative_fields, passport_value,
  recommendation_value, risk_value, scores_value, severity_str, statement_value,
}
use aleth_os_tool_passport.Domain.RunEvent.{as_str}
use aleth_os_tool_passport.Errors.{is_unique_violation}
use aleth_os_tool_passport.Service.Named.{each_named}
use aleth_os_tool_passport.Service.References.{
  ensure_unique_uuids, inside_board, is_stable_from, is_stable_id, normalize_evidence_references,
  unique_uuids, validate_stable_id,
}
use aleth_os_tool_passport.Service.Requests.{validate_evidence_board_version, validate_non_empty}
use aleth_os_tool_passport.Store.Boards.{get_check_results, get_evidence_freeze}
use aleth_os_tool_passport.Store.Events.{
  canonical_input, canonical_sha256, compute_event_hash, get_run, has_length, insert_event_row,
  insert_generated_event, insert_linked, latest, linked, next_sequence_and_prev_hash, pick,
  sha256_hex, update_runs,
}
use aleth_os_tool_passport.Store.Freezes.{
  create_passport_freeze, insert_error, insert_passport, insert_provenance, max_sequence,
  next_passport_sequence,
}
use aleth_os_tool_passport.Domain.Run.{pending}
use aleth_os_tool_passport.Domain.Board.{supported, EvidenceFreezeResult}
use aleth_os_tool_passport.Domain.CheckResults.{CheckResults, rating_str}
use aleth_os_tool_passport.Domain.Passport.{
  PassportStatement, FreezePassportRequest, PassportFreezeResult,
}
use aleth_os_tool_passport.Store.{Db, empty, has_text, insert}
use aleth_os_tool_passport.Store.Boards
use aleth_os_tool_passport.Store.Chain.{last_hash, events_of}
use aleth_os_tool_passport.Store.Logged.{IsLogged}
use aleth_os_tool_passport.Service.{World, generated_event, parse_run_id}
use aleth_os_tool_passport.Service.Passports.{
  Fresh, freeze_passport, narrative_of, normalize_known_gaps, normalize_mitigation,
  normalize_recommendation, normalize_risk, normalize_risks, normalize_statement,
  normalize_statements, passport_error, passport_of, passport_scores, prepare_passport,
  provenance_event, provenance_of, trimmed_revision, validate_passport_header,
  verify_binding_matches,
}
use aleth_os_tool_passport.Service.Composed.{IsComposed, freeze_passport-IsComposed}
use aleth_os_tool_passport.Tests.Fixtures.{
  digits_only, run_at, run_id, passport, provenance, world_of, or_else,
}
use aleth_os_tool_passport.Tests.Scores.{nothing}

abbrev pub board : EvidenceFreezeResult
board = record {
  evidence_board = record {
    evidence_board_schema_version = codes "0.1.0";
    run_id = 65;
    version = 1;
    standard_id = codes "alethos-toolpassport";
    standard_version = codes "0.3.0";
    profile_id = codes "generic";
    profile_version = codes "0.3.0";
    evidence_ids = 7 ∷ 8 ∷ [];
    claims = [];
    gaps = [];
    freeze_reason = codes "done";
    frozen_at = 8;
  };
  evidence_manifest = record {
    evidence_manifest_schema_version = codes "0.1.0";
    run_id = 65;
    evidence_board_version = 1;
    entries = [];
  };
}

abbrev results : CheckResults
results = record nothing {
  run_id = 65;
  evidence_board_version = 1;
  standard_id = codes "alethos-toolpassport";
  standard_version = codes "0.3.0";
  profile_id = codes "generic";
  profile_version = codes "0.3.0";
  total_score = 60;
}

abbrev computed : Db
computed = record empty {
  runs = run_at pending ∷ [];
  evidence_boards = board.evidence_board ∷ [];
  evidence_manifests = Boards.manifest_row board ∷ [];
  check_results = results ∷ [];
}

abbrev statement : PassportStatement
statement = record {
  statement_id = codes "statement-1";
  statement = codes " It exports CSV ";
  status = supported;
  evidence_ids = 8 ∷ 7 ∷ [];
}

abbrev request : FreezePassportRequest
request = record {
  passport_version = codes "0.2.0";
  evidence_board_version = 1;
  target_revision = none;
  audit_scope = codes "all";
  capability_claims = statement ∷ [];
  interfaces = [];
  risks = [];
  known_gaps = [];
  recommendation = record { summary = codes "try it"; conditions = [] };
}

abbrev fresh : Fresh
fresh = record { frozen_at = 11; event_id = 77; event_at = 12 }

abbrev issued : PassportFreezeResult × World
issued =
    or_else (record { passport = passport; provenance = provenance }, world_of empty)
      (freeze_passport digits_only true fresh run_id request (world_of computed))

issued-ok : freeze_passport digits_only true fresh run_id request (world_of computed) ≡ ok issued
unfolding rating_str claim_status_str entry_value manifest_value narrative_fields passport_value
    recommendation_value risk_value scores_value severity_str statement_value as_str
    is_unique_violation insert_on sort_on contains is_whitespace le_text starts_with trim trim_end
    trim_start each_named freeze_passport narrative_of normalize_known_gaps normalize_mitigation
    normalize_recommendation normalize_risk normalize_risks normalize_statement normalize_statements
    passport_error passport_of passport_scores prepare_passport provenance_event provenance_of
    trimmed_revision validate_passport_header verify_binding_matches ensure_unique_uuids
    inside_board is_stable_from is_stable_id normalize_evidence_references unique_uuids
    validate_stable_id validate_evidence_board_version validate_non_empty generated_event
    parse_run_id get_check_results get_evidence_freeze canonical_input canonical_sha256
    compute_event_hash get_run has_length insert_event_row insert_generated_event insert_linked
    latest linked next_sequence_and_prev_hash pick sha256_hex update_runs create_passport_freeze
    insert_error insert_passport insert_provenance max_sequence next_passport_sequence has_text
    insert
issued-ok = refl

computed-IsLogged : IsLogged digits_only computed.run_events
unfolding events_of
computed-IsLogged = λ id. tt

freeze_passport-IsComposed_example :
    IsComposed digits_only computed issued.0
    × IsLogged digits_only issued.1.db.run_events
    × (issued.0.provenance.audit_log_hash
        ≡ last_hash (events_of issued.0.passport.run_id issued.1.db.run_events))
freeze_passport-IsComposed_example =
    freeze_passport-IsComposed digits_only true fresh run_id request (world_of computed) issued.1
      issued.0 computed-IsLogged issued-ok
