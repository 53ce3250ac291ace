-- ===== src/Api.antt =====
-- The HTTP layer, backend/src/api.
pub mod Failure
pub mod Responses
pub mod Investigations
pub mod Processes
