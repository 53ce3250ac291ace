-- ===== src/Service.antt =====
-- The service layer, backend/src/services/mod.rs: what the operations share.
pub mod Ownership
pub mod Requests
pub mod References
pub mod Named
pub mod Board
pub mod Frozen
pub mod Checks
pub mod Grounded
pub mod Uploads
pub mod Undone
pub mod Saved
pub mod Passports
pub mod Composed
pub mod Normalizer
pub mod ToolIds
pub mod Tools
pub mod Registry
pub mod Started
pub mod Approve
pub mod Attest
pub mod Log
pub mod Listings
pub mod Steps
pub mod Effects
pub mod Once
pub mod Retry
pub mod Authority
pub mod Bound
pub mod Outcome
use aleth_os_tool_passport.Prelude.{
  ℕ, zero, suc, ◌+◌, ◌-◌, ◌*◌, ◌/◌, ◌%◌, ◌^◌, ◌≤◌, ◌<◌, min, ◌≡◌, refl, ◌≢◌, ◌⊎◌, inl, inr, subst,
  subst₂, sym, ◌∙◌, Bool, true, false, not, ◌&&◌, ◌||◌, Option, none, some, List, [], ◌∷◌, ◌++◌,
  map, arith, ltb, leb, ◌==◌, if◌then◌else◌, Text, codes, ◌=ₜ◌, =ₜ_iff, =ₜ_refl, is_empty, trim,
  Result, ok, err, ap, ==→≡, >>=-eq-ok, ok_or-ok, ok_injective, map_err-ok, ◌>>=◌, ◌>>◌, refuse,
  ok_or, map_err, Message, format, says, All, All-map, any, all, find, find_last, keep, length,
  head?, is_some, Bool-cases, Option-cases,
}
use aleth_os_tool_passport.Platform.{Platform}
use aleth_os_tool_passport.Domain.Run.{Run}
use aleth_os_tool_passport.Domain.RunEvent.{RunEvent, RunEventType, Fields}
use aleth_os_tool_passport.Domain.Approval.{AttestationCommitment}
use aleth_os_tool_passport.Errors.{ServiceError, invalid_run_id, run_not_found}
use aleth_os_tool_passport.Storage.{File}
use aleth_os_tool_passport.Store.{Db}
use aleth_os_tool_passport.Store.Events.{get_run}

-- What a service call can change: the database, what was handed to the attestation submitter,
-- what was handed to the broadcaster, and the stored files, each with the last one first.
pub record World : Type 0 where
  pub db : Db
  pub submitted : List AttestationCommitment
  pub broadcasts : List RunEvent
  pub files : List File

unfoldable pub parse_run_id : Platform → Text → Result ServiceError ℕ
parse_run_id p run_id = ok_or invalid_run_id (p.parse_uuid run_id)

unfoldable pub ensure_run_exists : Db → ℕ → Result ServiceError (Unit {0})
ensure_run_exists db run_id = ok_or run_not_found (get_run db run_id) >>= λ _. ok tt

-- `event_id` is the result of `Uuid::new_v4`, `now` that of `Utc::now`.
unfoldable pub generated_event : ℕ → ℕ → ℕ → RunEventType → Fields → RunEvent
generated_event event_id now run_id event_type payload = record {
  event_id = event_id;
  run_id = run_id;
  sequence = 0;
  node_id = codes "trust_core";
  event_type = event_type;
  payload = payload;
  created_at = now;
  event_hash = [];
  prev_event_hash = [];
}
