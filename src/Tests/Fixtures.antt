-- ===== src/Tests/Fixtures.antt =====
-- Two platforms, a run, its Passport, and the requests of the tests.
use aleth_os_tool_passport.Prelude.{
  ℕ, zero, suc, ◌+◌, Option, none, some, List, [], ◌∷◌, ◌++◌, Text, codes, Result, ok, err, Message,
  says,
}
use aleth_os_tool_passport.Platform.{Platform}
use aleth_os_tool_passport.Domain.Run.{Run, RunStatus}
use aleth_os_tool_passport.Domain.RunEvent.{
  RunEvent, RunEventType, Value, null, num, obj, end, as_text, get, node_started,
  AppendRunEventRequest,
}
use aleth_os_tool_passport.Domain.CheckResults.{trial}
use aleth_os_tool_passport.Domain.Passport.{Passport, Provenance}
use aleth_os_tool_passport.Domain.Approval.{
  approve_testnet_attestation, CreateApprovalRequest, AttestationCommitment,
}
use aleth_os_tool_passport.Store.{Db, empty}
use aleth_os_tool_passport.Service.{World}
use aleth_os_tool_passport.Service.Approve
use aleth_os_tool_passport.Service.Attest

abbrev shown : Option Value → Text
shown none = []
shown (some v) = elim (as_text v) [ none ↦ [] | some s ↦ s ]

abbrev pub canonicalize : Value → Text
canonicalize (obj members) = shown (get (codes "prev_event_hash") members)
canonicalize _ = []

abbrev one_character : Text → Option ℕ
one_character (c ∷ []) = some c
one_character _ = none

-- UUIDs and times as single characters, a hash that marks its input, and canonical JSON that shows
-- the previous hash of an event only
abbrev pub plain : Platform
plain = record {
  uuid_text = λ id. id ∷ [];
  parse_uuid = one_character;
  format_timestamp = λ t. t ∷ [];
  canonicalize = canonicalize;
  sha256 = λ s. 1 ∷ s;
  hex_encode = λ s. s;
  to_vec = λ v. 7 ∷ 8 ∷ [];
  sha256_bytes = λ s. 2 ∷ s;
  time_value = λ t. num t;
  float_value = λ x. null;
}

abbrev times : ℕ → ℕ → List ℕ
times zero c = []
times (suc n) c = c ∷ times n c

-- the same with hashes of 64 digits `a`
abbrev pub digits_only : Platform
digits_only = record plain { hex_encode = λ s. times 64 97 }

abbrev pub hash_a : Text
hash_a = codes "0x" ++ times 64 97

abbrev pub run_at : RunStatus → Run
run_at status = record {
  run_id = 65;
  goal = codes "audit";
  tool_id = codes "url:example.com";
  canonical_url = codes "https://example.com";
  tool = record { name = codes "Example"; tool_type = codes "generic"; urls = [] };
  audit_binding = record {
    standard_id = codes "alethos-toolpassport";
    standard_version = codes "0.3.0";
    profile_id = codes "generic";
    profile_version = codes "0.3.0";
  };
  status = status;
  current_node = none;
  created_at = 1;
  updated_at = 1;
}

abbrev pub event_of : ℕ → RunEventType → RunEvent
event_of event_id event_type = record {
  event_id = event_id;
  run_id = 65;
  sequence = 0;
  node_id = codes "run";
  event_type = event_type;
  payload = end;
  created_at = 2;
  event_hash = [];
  prev_event_hash = [];
}

abbrev pub passport : Passport
passport = record {
  passport_version = codes "0.2.0";
  passport_sequence = 1;
  tool_id = codes "url:example.com";
  run_id = 65;
  tool_type = codes "generic";
  target_revision = none;
  audit_scope = codes "all";
  standard_id = codes "alethos-toolpassport";
  standard_version = codes "0.3.0";
  profile_id = codes "generic";
  profile_version = codes "0.3.0";
  evidence_board_version = 1;
  check_results_id = 70;
  capability_claims = [];
  interfaces = [];
  risks = [];
  known_gaps = [];
  scores = record {
    dimensions = record {
      capability_clarity = 3;
      interface_openness = 3;
      automation_readiness = 3;
      data_portability = 3;
      permission_risk = 3;
      evidence_quality = 3;
      ecosystem_fit = 3;
    };
    total_score = 60;
    rating = trial;
  };
  recommendation = record { summary = codes "try it"; conditions = [] };
}

abbrev pub provenance : Provenance
provenance = record {
  provenance_schema_version = codes "0.1.0";
  run_id = 65;
  freeze_version = 1;
  evidence_board_version = 1;
  passport_sequence = 1;
  passport_hash = hash_a;
  audit_log_hash = [];
  evidence_manifest_hash = hash_a;
  onchain_run_id = hash_a;
  frozen_at = 3;
}

abbrev pub approval_request : CreateApprovalRequest
approval_request = record {
  approval_schema_version = codes "0.1.0";
  decision = approve_testnet_attestation;
  passport_sequence = 1;
  passport_hash = hash_a;
  audit_log_hash = hash_a;
  evidence_manifest_hash = hash_a;
  chain_id = some 11155111;
  registry_contract = some (codes "0x" ++ times 40 98);
}

abbrev pub event_request : AppendRunEventRequest
event_request = record { node_id = codes "plan"; event_type = node_started; payload = end }

abbrev pub run_id : Text
run_id = 65 ∷ []

abbrev pub deciding : Approve.Fresh
deciding = record { decided_at = 4; approval_id = 80; event_id = 81; event_at = 5 }

abbrev pub attesting : ℕ → Attest.Fresh
attesting n = record {
  claimed_at = 6;
  submitted_at = 7;
  attestation_id = n;
  confirmed_at = 8;
  submitted_event_id = n + 1;
  confirmed_event_id = n + 2;
  confirmed_event_at = 9;
}

abbrev pub succeeds : AttestationCommitment → Result Message Text
succeeds c = ok hash_a

abbrev pub fails : AttestationCommitment → Result Message Text
fails c = err (says "no connection")

-- what a call that succeeds returns and leaves
abbrev pub left {ℓ μ} : {E : Type μ} {A : Type ℓ} → Result E (A × Db) → Db
left (ok (a, db)) = db
left (err e) = empty

abbrev pub world_of : Db → World
world_of db = record { db = db; submitted = []; broadcasts = []; files = [] }

abbrev pub or_else {ℓ μ} : {E : Type μ} {A : Type ℓ} → A → Result E A → A
or_else a (ok b) = b
or_else a (err e) = a
