-- ===== src/Service/Requests.antt =====
-- backend/src/services/mod.rs: validation of requests.
use aleth_os_tool_passport.Prelude.{
  ℕ, zero, suc, ◌+◌, ◌/◌, ◌%◌, Bool, false, not, ◌&&◌, ◌||◌, Option, none, some, [], ◌∷◌, ltb, leb,
  ◌==◌, if◌then◌else◌, Text, String, codes, ◌=ₜ◌, is_empty, trim, Result, ◌>>◌, refuse, format,
  says, all, length, is_some,
}
use aleth_os_tool_passport.Domain.Approval.{
  ApprovalDecision, approve_testnet_attestation, CreateApprovalRequest,
}
use aleth_os_tool_passport.Domain.RunEvent.{AppendRunEventRequest}
use aleth_os_tool_passport.Errors.{ServiceError, invalid_request}
use aleth_os_tool_passport.Scoring.Findings.{i64_max}

-- `str::len`: the bytes of the UTF-8 encoding
abbrev len_utf8 : ℕ → ℕ
len_utf8 c = if ltb c 0x80 then 1 else if ltb c 0x800 then 2 else if ltb c 0x10000 then 3 else 4

abbrev pub byte_length : Text → ℕ
byte_length [] = 0
byte_length (c ∷ s) = len_utf8 c + byte_length s

abbrev pub is_ascii_hexdigit : ℕ → Bool
is_ascii_hexdigit c = (leb 48 c && leb c 57) || (leb 65 c && leb c 70) || (leb 97 c && leb c 102)

-- `starts_with("0x")`, and what `value[2..]` holds then
unfoldable pub digits_after_0x : Text → Option Text
digits_after_0x (a ∷ b ∷ s) = if a == 48 && b == 120 then some s else none
digits_after_0x _ = none

-- the condition on hashes (66 bytes) and on addresses (42 bytes)
unfoldable pub is_hex : ℕ → Text → Bool
is_hex size value =
    byte_length value == size
    && elim (digits_after_0x value) [ none ↦ false | some s ↦ all is_ascii_hexdigit s ]

-- a usize as `format!` writes it: 20 digits are enough
abbrev pub digits : ℕ → ℕ → Text → Text
digits zero n s = s
digits (suc fuel) n s =
    let rest = digits fuel (n / 10) ((48 + n % 10) ∷ s) in if ltb n 10 then (48 + n) ∷ s else rest

abbrev pub decimal : ℕ → Text
decimal n = digits 20 n []

unfoldable pub validate_required : String → Text → ℕ → Result ServiceError (Unit {0})
validate_required name value max_length = do
  refuse (is_empty (trim value)) (invalid_request (format "{} must not be empty" (codes name ∷ [])))
  refuse (ltb max_length (length (trim value))) (
      invalid_request
        (format "{} must contain at most {} characters" (codes name ∷ decimal max_length ∷ [])))

unfoldable pub validate_append_event : AppendRunEventRequest → Result ServiceError (Unit {0})
validate_append_event request = validate_required "node_id" request.node_id 200

unfoldable pub validate_non_empty : String → Text → Result ServiceError (Unit {0})
validate_non_empty name value =
    refuse (is_empty (trim value))
      (invalid_request (format "{} must not be empty" (codes name ∷ [])))

unfoldable pub validate_evidence_board_version : ℕ → Result ServiceError (Unit {0})
validate_evidence_board_version version =
    refuse (version == 0 || ltb i64_max version)
      (invalid_request (says "evidence board version must be between 1 and 9223372036854775807"))

unfoldable pub validate_passport_sequence : ℕ → Result ServiceError (Unit {0})
validate_passport_sequence sequence =
    refuse (sequence == 0 || ltb i64_max sequence)
      (invalid_request (says "passport sequence must be between 1 and 9223372036854775807"))

unfoldable pub validate_hash : String → Text → Result ServiceError (Unit {0})
validate_hash name value =
    refuse (not (is_hex 66 value))
      (invalid_request (format "{} must be a 0x-prefixed 32-byte hash" (codes name ∷ [])))

abbrev pub is_sepolia : Option ℕ → Bool
is_sepolia none = false
is_sepolia (some chain_id) = chain_id == 11155111

abbrev or_empty : Option Text → Text
or_empty none = []
or_empty (some s) = s

-- the `match` on the decision
unfoldable pub validate_chain :
    ApprovalDecision → Option ℕ → Option Text → Result ServiceError (Unit {0})
validate_chain approve_testnet_attestation chain_id registry_contract = do
  refuse (not (is_sepolia chain_id))
      (invalid_request (says "testnet attestation approval requires Sepolia chain_id 11155111"))
  refuse (not (is_hex 42 (or_empty registry_contract)))
      (invalid_request (says "testnet attestation approval requires a valid registry_contract"))
validate_chain _ chain_id registry_contract =
    refuse (is_some chain_id || is_some registry_contract)
      (invalid_request (says "offchain approval and rejection must not include chain parameters"))

unfoldable pub validate_approval_request : CreateApprovalRequest → Result ServiceError (Unit {0})
validate_approval_request request = do
  refuse (not (request.approval_schema_version =ₜ codes "0.1.0"))
      (invalid_request (says "approval_schema_version must be 0.1.0"))
  validate_passport_sequence request.passport_sequence
  validate_hash "passport_hash" request.passport_hash
  validate_hash "audit_log_hash" request.audit_log_hash
  validate_hash "evidence_manifest_hash" request.evidence_manifest_hash
  validate_chain request.decision request.chain_id request.registry_contract
