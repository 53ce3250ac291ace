-- ===== src/Errors.antt =====
-- The error types: RepositoryError of backend/src/repository/mod.rs and ServiceError of
-- backend/src/services/mod.rs. A message is kept as its format string and arguments.
use aleth_os_tool_passport.Prelude.{ℕ, Bool, true, false, Text, Message}

-- what `sqlx` reports of a statement: the constraint that failed, `fetch_one` without a row, or
-- an I/O fault
pub data SqlError : Type 0 where
  unique_constraint foreign_key check_constraint row_not_found fault : SqlError

pub data RepositoryError : Type 0 where
  database : SqlError → RepositoryError
  invalid_stored_data : Message → RepositoryError
  run_state_changed : RepositoryError
  unique_violation : RepositoryError

unfoldable pub is_unique_violation : SqlError → Bool
is_unique_violation unique_constraint = true
is_unique_violation _ = false

pub data StorageError : Type 0 where
  io : StorageError
  too_large : ℕ → StorageError
  invalid_storage_key path_traversal : StorageError

pub data ServiceError : Type 0 where
  invalid_run_id : ServiceError
  invalid_request : Message → ServiceError
  run_not_found : ServiceError
  conflict : Message → ServiceError
  check_results_already_exist evidence_board_already_frozen : ServiceError
  evidence_board_not_found passport_already_frozen passport_not_found : ServiceError
  approval_already_exists approval_not_found attestation_already_exists : ServiceError
  attestation_attempt_already_exists attestation_not_found : ServiceError
  attestation_submission : Message → ServiceError
  tool_not_found invalid_tool_id_format tool_already_exists : ServiceError
  identifier_already_claimed : Text → ServiceError
  invalid_url : Message → ServiceError
  invalid_intake_version : ServiceError
  repository : RepositoryError → ServiceError
  storage : StorageError → ServiceError
