-- ===== src/Api/Failure.antt =====
-- backend/src/api/error.rs: how an error becomes an HTTP response.
use aleth_os_tool_passport.Prelude.{ℕ, [], ◌∷◌, Text, String, codes, Message, format, says}
use aleth_os_tool_passport.Domain.RunEvent.{Fields, end, field, str}
use aleth_os_tool_passport.Service.Requests.{decimal}
use aleth_os_tool_passport.Errors.{
  StorageError, io, too_large, invalid_storage_key, path_traversal, ServiceError, invalid_run_id,
  invalid_request, run_not_found, conflict, check_results_already_exist,
  evidence_board_already_frozen, evidence_board_not_found, passport_already_frozen,
  passport_not_found, approval_already_exists, approval_not_found, attestation_already_exists,
  attestation_attempt_already_exists, attestation_not_found, attestation_submission, tool_not_found,
  invalid_tool_id_format, tool_already_exists, identifier_already_claimed, invalid_url,
  invalid_intake_version, repository, storage,
}

-- the status, and the body with `code`, `message` and the object `details`
pub record ApiError : Type 0 where
  pub status : ℕ
  pub code : Text
  pub message : Message
  pub details : Fields

-- `ApiError::new`
abbrev pub answer : ℕ → String → Message → Fields → ApiError
answer status code message details = record {
  status = status;
  code = codes code;
  message = message;
  details = details;
}

-- the response that tells nothing of the fault
abbrev pub internal_error : ApiError
internal_error = answer 500 "internal_error" (says "an internal error occurred") end

unfoldable pub from_storage : StorageError → ApiError
from_storage (too_large max_bytes) =
    answer 413 "stored_content_too_large"
      (format "stored content exceeds the {max_bytes} byte limit" (decimal max_bytes ∷ [])) end
from_storage invalid_storage_key = answer 400 "storage_error" (says "invalid storage key") end
from_storage path_traversal =
    answer 400 "storage_error" (says "storage path escaped the configured artifact root") end
from_storage io = internal_error

-- `From<ServiceError>`
unfoldable pub from_service : ServiceError → ApiError
unfolding from_storage
from_service invalid_run_id = answer 400 "invalid_run_id" (says "run ID must be a UUID") end
from_service (invalid_request message) = answer 400 "invalid_request" (message) end
from_service run_not_found = answer 404 "run_not_found" (says "run not found") end
from_service (conflict message) = answer 409 "run_state_conflict" (message) end
from_service check_results_already_exist =
    answer 409 "check_results_already_exist"
      (says "check results already exist for this evidence_board_version") end
from_service evidence_board_already_frozen =
    answer 409 "evidence_board_already_frozen" (says "evidence board version is already frozen") end
from_service evidence_board_not_found =
    answer 404 "evidence_board_not_found" (says "evidence board version is not frozen") end
from_service passport_already_frozen =
    answer 409 "passport_already_frozen" (says "passport sequence is already frozen") end
from_service passport_not_found =
    answer 404 "passport_not_found" (says "passport sequence is not frozen") end
from_service approval_already_exists =
    answer 409 "approval_already_exists" (says "approval already exists") end
from_service approval_not_found = answer 404 "approval_not_found" (says "approval not found") end
from_service attestation_already_exists =
    answer 409 "attestation_already_exists" (says "attestation receipt already exists") end
from_service attestation_attempt_already_exists =
    answer 409 "attestation_attempt_already_exists"
      (says "attestation submission has already been attempted; manual review is required") end
from_service attestation_not_found =
    answer 404 "attestation_not_found" (says "attestation receipt not found") end
from_service (attestation_submission message) =
    answer 502 "attestation_submission_failed" (message) end
from_service tool_not_found = answer 404 "tool_not_found" (says "tool not found") end
from_service invalid_tool_id_format =
    answer 400 "invalid_tool_id_format" (says "invalid tool ID format") end
from_service tool_already_exists = answer 409 "tool_already_exists" (says "tool already exists") end
from_service (identifier_already_claimed owner) =
    answer 409 "identifier_already_claimed"
      (format "external identifier already claimed by {}" (owner ∷ []))
      (field (codes "claimed_by") (str owner) end)
from_service (invalid_url detail) = answer 400 "invalid_url" (detail) end
from_service invalid_intake_version =
    answer 400 "invalid_intake_version" (says "invalid intake version") end
from_service (repository _) = internal_error
from_service (storage e) = from_storage e

-- `ApiError::invalid_json`; `body_text` is what axum reports.
unfoldable pub invalid_json : Text → ApiError
invalid_json body_text =
    answer 400 "invalid_json" (says "request body must be valid JSON matching the expected shape")
      (field (codes "reason") (str body_text) end)

-- `ApiError::invalid_multipart`, with the status that axum gives
unfoldable pub invalid_multipart : ℕ → ApiError
invalid_multipart status =
    answer status "invalid_multipart"
      (says "request body must contain one valid multipart file field") end

unfoldable pub not_found : ApiError
not_found = answer 404 "route_not_found" (says "route not found") end

unfoldable pub method_not_allowed : ApiError
method_not_allowed = answer 405 "method_not_allowed" (says "method not allowed") end
