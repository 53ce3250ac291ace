-- ===== src/Domain.antt =====
-- backend/src/domain: the data of the trust core.
pub mod Run
pub mod RunEvent
pub mod Tool
pub mod CheckResults
pub mod Evidence
pub mod Board
pub mod Passport
pub mod Json
pub mod Approval
pub mod Codecs
