-- ===== src/Api/Responses.antt =====
-- What a client can rely on in an error response.
use aleth_os_tool_passport.Prelude.{
  ends_with, ◌≡◌, refl, Bool, true, false, ◌||◌, ◌==◌, if◌then◌else◌, codes,
}
use aleth_os_tool_passport.Errors
use aleth_os_tool_passport.Errors.{RepositoryError, StorageError, ServiceError}
use aleth_os_tool_passport.Api.Failure.{internal_error, from_service}

-- the faults of the server itself
abbrev pub is_internal : ServiceError → Bool
is_internal (Errors.repository _) = true
is_internal (Errors.storage Errors.io) = true
is_internal _ = false

-- For every error of the service: the response is that of an internal error, with its fixed code
-- and message, if the error is one of the repository or of file I/O or path resolution; its status
-- is 500 exactly then; it is 404 exactly if the code ends with _not_found; and it is 409 exactly
-- if the code ends with _conflict, _exist, _exists, _frozen or _claimed.
pub from_service-classes :
    (e : ServiceError)
    → (from_service e ≡ (if is_internal e then internal_error else from_service e))
      × (((from_service e).status == 500) ≡ is_internal e)
      × (((from_service e).status == 404) ≡ ends_with (codes "_not_found") (from_service e).code)
      × (((from_service e).status == 409) ≡ (
          ends_with (codes "_conflict") (from_service e).code
          || ends_with (codes "_exist") (from_service e).code
          || ends_with (codes "_exists") (from_service e).code
          || ends_with (codes "_frozen") (from_service e).code
          || ends_with (codes "_claimed") (from_service e).code))
unfolding from_service ends_with
from_service-classes (Errors.repository r) = (refl, refl, refl, refl)
from_service-classes (Errors.storage Errors.io) = (refl, refl, refl, refl)
from_service-classes (Errors.storage (Errors.too_large n)) = (refl, refl, refl, refl)
from_service-classes (Errors.storage Errors.invalid_storage_key) = (refl, refl, refl, refl)
from_service-classes (Errors.storage Errors.path_traversal) = (refl, refl, refl, refl)
from_service-classes (Errors.invalid_run_id) = (refl, refl, refl, refl)
from_service-classes (Errors.invalid_request message) = (refl, refl, refl, refl)
from_service-classes (Errors.run_not_found) = (refl, refl, refl, refl)
from_service-classes (Errors.conflict message) = (refl, refl, refl, refl)
from_service-classes (Errors.check_results_already_exist) = (refl, refl, refl, refl)
from_service-classes (Errors.evidence_board_already_frozen) = (refl, refl, refl, refl)
from_service-classes (Errors.evidence_board_not_found) = (refl, refl, refl, refl)
from_service-classes (Errors.passport_already_frozen) = (refl, refl, refl, refl)
from_service-classes (Errors.passport_not_found) = (refl, refl, refl, refl)
from_service-classes (Errors.approval_already_exists) = (refl, refl, refl, refl)
from_service-classes (Errors.approval_not_found) = (refl, refl, refl, refl)
from_service-classes (Errors.attestation_already_exists) = (refl, refl, refl, refl)
from_service-classes (Errors.attestation_attempt_already_exists) = (refl, refl, refl, refl)
from_service-classes (Errors.attestation_not_found) = (refl, refl, refl, refl)
from_service-classes (Errors.attestation_submission message) = (refl, refl, refl, refl)
from_service-classes (Errors.tool_not_found) = (refl, refl, refl, refl)
from_service-classes (Errors.invalid_tool_id_format) = (refl, refl, refl, refl)
from_service-classes (Errors.tool_already_exists) = (refl, refl, refl, refl)
from_service-classes (Errors.identifier_already_claimed owner) = (refl, refl, refl, refl)
from_service-classes (Errors.invalid_url detail) = (refl, refl, refl, refl)
from_service-classes (Errors.invalid_intake_version) = (refl, refl, refl, refl)
