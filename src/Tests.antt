-- ===== src/Tests.antt =====
-- Runs of the model at concrete inputs: a platform of plain functions, one run from its creation to
-- its attestation, and one scored submission.
pub mod Fixtures
pub mod Chains
pub mod Decisions
pub mod Attestations
pub mod Scores
pub mod Uploads
pub mod Boards
pub mod Grades
pub mod Passports
pub mod Tools
pub mod Server
pub mod Codecs
