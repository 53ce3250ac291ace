-- ===== src/Tests/Boards.antt =====
-- A frozen board, and writes after it.
use aleth_os_tool_passport.Prelude.{
  ◌≡◌, refl, true, false, none, some, [], ◌∷◌, if◌then◌else◌, codes, trim, ok, sort_on, starts_with,
  contains, insert_on, is_whitespace, le_text, trim_end, trim_start,
}
use aleth_os_tool_passport.Scoring.Catalog.{audit_binding_check_ids, load_catalog, profile_of}
use aleth_os_tool_passport.Scoring.Embedded.{
  agent_framework_profile, cli_api_tool_profile, generic_profile, mcp_server_profile, standard,
}
use aleth_os_tool_passport.Scoring.Messages.{to_string}
use aleth_os_tool_passport.Service.Named.{each_named}
use aleth_os_tool_passport.Service.References.{
  ensure_unique_uuids, inside_board, is_stable_from, is_stable_id, normalize_evidence_references,
  unique_uuids, validate_check_id, validate_stable_id,
}
use aleth_os_tool_passport.Service.Requests.{validate_evidence_board_version, validate_non_empty}
use aleth_os_tool_passport.Store.Freezes.{insert_error}
use aleth_os_tool_passport.Store.Records.{list_artifacts, list_evidence}
use aleth_os_tool_passport.Store.Tools.{
  create_tool, insert_alias, insert_aliases, insert_external_id, insert_external_ids, insert_tool,
}
use aleth_os_tool_passport.Store.Chain.{events_of}
use aleth_os_tool_passport.Domain.Run.{Run, pending}
use aleth_os_tool_passport.Domain.RunEvent.{evidence_board_frozen, as_str}
use aleth_os_tool_passport.Domain.Board.{
  finite, supported, medium, open_gap, EvidenceBoardClaim, EvidenceBoardGap,
  FreezeEvidenceBoardRequest, EvidenceFreezeResult,
}
use aleth_os_tool_passport.Domain.Tool.{Tool, generic}
use aleth_os_tool_passport.Errors.{is_unique_violation}
use aleth_os_tool_passport.Store.{Db, empty, has_text, insert}
use aleth_os_tool_passport.Store.Events.{
  get_run, canonical_input, canonical_sha256, compute_event_hash, has_length, insert_event_row,
  insert_generated_event, insert_linked, latest, linked, next_sequence_and_prev_hash, pick,
  sha256_hex, update_runs,
}
use aleth_os_tool_passport.Store.Boards.{
  create_evidence_freeze, get_evidence_freeze, insert_board, insert_manifest,
}
use aleth_os_tool_passport.Store.Tools
use aleth_os_tool_passport.Store.Logged.{IsLogged}
use aleth_os_tool_passport.Store.Writes.{Writes, unwritten, then_write, tool_created, board_frozen}
use aleth_os_tool_passport.Store.WriteOnce.{create_evidence_freeze-refines, Writes-IsReadable}
use aleth_os_tool_passport.Store.Sequences.{Writes-IsLogged}
use aleth_os_tool_passport.Service.{World, generated_event, parse_run_id}
use aleth_os_tool_passport.Service.Board
use aleth_os_tool_passport.Service.Board.{
  Fresh, freeze_evidence_board, evidence_of_board, freeze_error, freeze_of, frozen_event,
  is_confidence, manifest_entries, normalize_claim, normalize_gap, normalize_resolution,
  prepare_freeze, snapshot_hash, validate_freeze_header,
}
use aleth_os_tool_passport.Service.Frozen.{IsFrozen, freeze_evidence_board-IsFrozen}
use aleth_os_tool_passport.Tests.Fixtures.{digits_only, run_at, event_of, run_id, world_of, or_else}
use aleth_os_tool_passport.Tests.Uploads.{stored_evidence}

abbrev csv_claim : EvidenceBoardClaim
csv_claim = record {
  claim_id = codes "claim-1";
  check_id = codes "generic.export_path";
  statement = codes "It exports CSV";
  status = supported;
  confidence = finite false 1;
  supports = 73 ∷ 72 ∷ [];
  contradicts = [];
}

abbrev gap : EvidenceBoardGap
gap = record {
  gap_id = codes "gap-1";
  check_id = codes "generic.export_path";
  description = codes "No JSON";
  priority = medium;
  status = open_gap;
  resolution = none;
}

abbrev request : FreezeEvidenceBoardRequest
request = record {
  evidence_board_schema_version = codes "0.1.0";
  version = 1;
  evidence_ids = 73 ∷ 72 ∷ [];
  claims = csv_claim ∷ [];
  gaps = gap ∷ [];
  freeze_reason = codes "done";
}

abbrev fresh : Fresh
fresh = record { frozen_at = 8; event_id = 75; event_at = 9 }

abbrev gathered : Db
gathered = record empty {
  runs = run_at pending ∷ [];
  evidence = stored_evidence 72 ∷ stored_evidence 73 ∷ [];
}

abbrev no_freeze : EvidenceFreezeResult
no_freeze = Board.freeze_of fresh (run_at pending) request [] [] [] []

abbrev frozen : EvidenceFreezeResult × World
frozen =
    or_else (no_freeze, world_of empty)
      (freeze_evidence_board digits_only true fresh run_id request (world_of gathered))

frozen-ok :
    freeze_evidence_board digits_only true fresh run_id request (world_of gathered) ≡ ok frozen
unfolding as_str is_unique_violation insert_on sort_on contains is_whitespace le_text starts_with
    trim trim_end trim_start audit_binding_check_ids load_catalog profile_of agent_framework_profile
    cli_api_tool_profile generic_profile mcp_server_profile standard to_string evidence_of_board
    freeze_error freeze_evidence_board freeze_of frozen_event is_confidence manifest_entries
    normalize_claim normalize_gap normalize_resolution prepare_freeze snapshot_hash
    validate_freeze_header each_named ensure_unique_uuids inside_board is_stable_from is_stable_id
    normalize_evidence_references unique_uuids validate_check_id validate_stable_id
    validate_evidence_board_version validate_non_empty generated_event parse_run_id
    create_evidence_freeze insert_board insert_manifest canonical_input canonical_sha256
    compute_event_hash get_run has_length insert_event_row insert_generated_event insert_linked
    latest linked next_sequence_and_prev_hash pick sha256_hex update_runs insert_error
    list_artifacts list_evidence has_text insert
frozen-ok = refl

freeze_evidence_board-IsFrozen_example :
    (run : Run) × (parse_run_id digits_only run_id ≡ ok frozen.0.evidence_board.run_id)
    × (get_run gathered frozen.0.evidence_board.run_id ≡ some run)
    × IsFrozen digits_only gathered run request frozen.0
    × (get_evidence_freeze frozen.1.db frozen.0.evidence_board.run_id
          frozen.0.evidence_board.version
        ≡ some frozen.0)
freeze_evidence_board-IsFrozen_example =
    freeze_evidence_board-IsFrozen digits_only true fresh run_id request (world_of gathered)
      frozen.1 frozen.0 frozen-ok

-- a freeze that is written by the repository alone
abbrev pub plain_freeze : EvidenceFreezeResult
plain_freeze = Board.freeze_of fresh (run_at pending) request (72 ∷ 73 ∷ []) [] [] []

abbrev pub written : EvidenceFreezeResult × Db
written =
    or_else (plain_freeze, empty)
      (create_evidence_freeze digits_only true gathered plain_freeze
        (event_of 75 evidence_board_frozen))

written-ok :
    create_evidence_freeze digits_only true gathered plain_freeze
      (event_of 75 evidence_board_frozen)
    ≡ ok written
unfolding as_str is_unique_violation is_whitespace trim trim_end trim_start freeze_of
    create_evidence_freeze insert_board insert_manifest canonical_input canonical_sha256
    compute_event_hash has_length insert_event_row insert_generated_event insert_linked latest
    linked next_sequence_and_prev_hash pick sha256_hex update_runs insert_error has_text insert
written-ok = refl

create_evidence_freeze-refines_example :
    (get_evidence_freeze gathered 65 1 ≡ none)
    × (get_evidence_freeze written.1 65 2
        ≡ (if false then some plain_freeze else get_evidence_freeze gathered 65 2))
unfolding is_whitespace trim trim_end trim_start freeze_of
create_evidence_freeze-refines_example =
    create_evidence_freeze-refines digits_only true gathered written.1 plain_freeze
      (event_of 75 evidence_board_frozen) 65 2 written-ok

abbrev tool : Tool
tool = record {
  tool_schema_version = codes "0.1.0";
  tool_id = codes "url:example.com";
  name = codes "Example";
  tool_type = generic;
  canonical_url = codes "https://example.com";
  external_identifiers =
      record {
        namespace = codes "url";
        value = codes "example.com";
        canonical_url = codes "https://example.com";
      }
      ∷ [];
  aliases = [];
  created_at = 1;
  updated_at = 1;
}

abbrev listed : Tool × Db
listed = or_else (tool, empty) (Tools.create_tool written.1 tool)

listed-ok : Tools.create_tool written.1 tool ≡ ok listed
unfolding as_str is_unique_violation is_whitespace trim trim_end trim_start freeze_of
    create_evidence_freeze insert_board insert_manifest canonical_input canonical_sha256
    compute_event_hash has_length insert_event_row insert_generated_event insert_linked latest
    linked next_sequence_and_prev_hash pick sha256_hex update_runs insert_error create_tool
    insert_alias insert_aliases insert_external_id insert_external_ids insert_tool has_text insert
listed-ok = refl

-- the freeze and the tool, one after the other
gathered-Writes : Writes digits_only gathered listed.1
gathered-Writes =
    then_write
      (then_write unwritten
        (board_frozen true plain_freeze (event_of 75 evidence_board_frozen) written-ok))
      (tool_created tool listed-ok)

written-Writes : Writes digits_only written.1 listed.1
written-Writes = then_write unwritten (tool_created tool listed-ok)

gathered-IsLogged : IsLogged digits_only gathered.run_events
unfolding events_of
gathered-IsLogged = λ id. tt

Writes-IsLogged_example : IsLogged digits_only listed.1.run_events
Writes-IsLogged_example = Writes-IsLogged digits_only gathered-Writes gathered-IsLogged

written-IsReadable : get_evidence_freeze written.1 65 1 ≡ some plain_freeze
unfolding as_str is_unique_violation is_whitespace trim trim_end trim_start freeze_of
    create_evidence_freeze get_evidence_freeze insert_board insert_manifest canonical_input
    canonical_sha256 compute_event_hash has_length insert_event_row insert_generated_event
    insert_linked latest linked next_sequence_and_prev_hash pick sha256_hex update_runs insert_error
    has_text insert
written-IsReadable = refl

Writes-IsReadable_example : get_evidence_freeze listed.1 65 1 ≡ some plain_freeze
Writes-IsReadable_example =
    Writes-IsReadable digits_only 65 1 plain_freeze written-Writes written-IsReadable
