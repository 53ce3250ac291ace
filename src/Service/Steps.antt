-- ===== src/Service/Steps.antt =====
-- The steps of a server whose requests interleave.
use aleth_os_tool_passport.Prelude.{ℕ, ◌≡◌, Bool, Option, List, [], ◌∷◌, Text, Result, ok, Message}
use aleth_os_tool_passport.Platform.{Platform}
use aleth_os_tool_passport.Domain.Run.{Run, RunStatus}
use aleth_os_tool_passport.Domain.RunEvent.{RunEvent}
use aleth_os_tool_passport.Domain.Passport.{Passport, Provenance, PassportFreezeResult}
use aleth_os_tool_passport.Domain.Approval.{Approval, CreateApprovalRequest, AttestationCommitment}
use aleth_os_tool_passport.Store.{Db}
use aleth_os_tool_passport.Store.Events.{create_run, append_event}
use aleth_os_tool_passport.Store.Freezes.{create_passport_freeze}
use aleth_os_tool_passport.Store.Approvals.{claim_attestation_attempt}
use aleth_os_tool_passport.Service.{World}
use aleth_os_tool_passport.Service.Approve
use aleth_os_tool_passport.Service.Attest
use aleth_os_tool_passport.Service.Attest.{
  Ready, send, record_receipt, receipt_of, submitted_event, confirmed_event, receipt_error,
}

-- The requests that hold a claim and have not submitted, and the world.
pub record Site : Type 0 where
  pub pending : List Ready
  pub world : World

pub data Removed (r : Ready) : List Ready → List Ready → Type 0 where
  here : {rs : List Ready} → Removed r (r ∷ rs) rs
  there : {s : Ready} {rs left : List Ready} → Removed r rs left → Removed r (s ∷ rs) (s ∷ left)

abbrev pub with_db : World → Db → World
with_db w db = record w { db = db }

-- A step of the server. The reads of `submit_attestation` may be old, so its claim is for any
-- `Ready`; after a claim it sends, in one step, or the process stops.
module _ (submit : AttestationCommitment → Result Message Text) (p : Platform) where
  pub data Step : Site → Site → Type 0 where
    claim :
        {pending : List Ready} {w : World} {db : Db} (ready : Ready) (now : ℕ)
        → claim_attestation_attempt w.db ready.commitment.run_id ready.approval_id now ≡ ok db
        → Step
            (record { pending = pending; world = w })
            (record { pending = ready ∷ pending; world = with_db w db })
    deliver :
        {pending left : List Ready} {w : World} (read : Bool) (fresh : Attest.Fresh) (ready : Ready)
        → Removed ready pending left
        → Step
            (record { pending = pending; world = w })
            (record { pending = left; world = (send submit p read fresh ready w).1 })
    stop :
        {pending : List Ready} {w : World}
        → Step (record { pending = pending; world = w }) (record { pending = []; world = w })
    approve :
        {pending : List Ready} {w w' : World} {a : Approval} (read : Bool) (fresh : Approve.Fresh)
        (run_id : Text) (request : CreateApprovalRequest)
        → Approve.create_approval p read fresh run_id request w ≡ ok (a, w')
        → Step (record { pending = pending; world = w }) (record { pending = pending; world = w' })
    append :
        {pending : List Ready} {w : World} {db : Db} {e : RunEvent} (read : Bool) (event : RunEvent)
        (expected : RunStatus) (status : Option RunStatus) (place : Option Text)
        → append_event p read w.db event expected status place ≡ ok (e, db)
        → Step
            (record { pending = pending; world = w })
            (record { pending = pending; world = with_db w db })
    start :
        {pending : List Ready} {w : World} {db : Db} {r : Run} (run : Run) (event : RunEvent)
        → create_run p w.db run event ≡ ok (r, db)
        → Step
            (record { pending = pending; world = w })
            (record { pending = pending; world = with_db w db })
    freeze :
        {pending : List Ready} {w : World} {db : Db} {f : PassportFreezeResult} (read : Bool)
        (passport : Passport) (provenance : Provenance) (event : RunEvent)
        → create_passport_freeze p read w.db passport provenance event ≡ ok (f, db)
        → Step
            (record { pending = pending; world = w })
            (record { pending = pending; world = with_db w db })

  pub data Reaches : Site → Site → Type 0 where
    rest : {s : Site} → Reaches s s
    more : {s t u : Site} → Reaches s t → Step t u → Reaches s u
