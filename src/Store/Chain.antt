-- ===== src/Store/Chain.antt =====
-- The hash chain of a run: every write of an event extends it.
use aleth_os_tool_passport.Prelude.{
  ℕ, suc, ◌≡◌, refl, inl, inr, Bool, true, false, ◌&&◌, ◌||◌, some, List, [], ◌∷◌, arith, ◌==◌,
  Text, ok, any, keep, length, head?, Bool-cases,
}
use aleth_os_tool_passport.Platform.{Platform}
use aleth_os_tool_passport.Domain.RunEvent.{RunEvent, zero_hash}
use aleth_os_tool_passport.Store.{Db, insert}
use aleth_os_tool_passport.Store.Events.{
  pick, next_place, latest, compute_event_hash, next_sequence_and_prev_hash, insert_event_row,
}

unfoldable pub events_of : ℕ → List RunEvent → List RunEvent
events_of run_id rows = keep (λ e. e.run_id == run_id) rows

-- the test of the UNIQUE constraint at sequence 1
abbrev pub is_first : ℕ → RunEvent → Bool
is_first id e = e.run_id == id && e.sequence == 1

-- the head of a chain, which the next event links to
abbrev pub last_hash : List RunEvent → Text
last_hash [] = zero_hash
last_hash (e ∷ es) = e.event_hash

module _ (p : Platform) where
  -- the newest event first
  abbrev pub IsChain : List RunEvent → Type 0
  IsChain [] = Unit
  IsChain (e ∷ es) =
      (e.sequence ≡ suc (length es))
      × (e.prev_event_hash ≡ last_hash es)
      × (e.event_hash ≡ compute_event_hash p e)
      × IsChain es

  pick-head : (e : RunEvent) (es : List RunEvent) → IsChain (e ∷ es) → pick e (head? es) ≡ some e
  unfolding pick
  pick-head e [] c = refl
  pick-head e (f ∷ es) c = ground arith

  pub IsChain-skip :
      (id : ℕ) (e : RunEvent) (rows : List RunEvent)
      → (e.run_id == id) ≡ false
      → IsChain (events_of id (e ∷ rows))
      → IsChain (events_of id rows)
  unfolding events_of
  IsChain-skip id e rows other c = rw other at c

  pub IsChain-here :
      (id : ℕ) (e : RunEvent) (rows : List RunEvent)
      → (e.run_id == id) ≡ true
      → IsChain (events_of id (e ∷ rows))
      → IsChain (e ∷ events_of id rows)
  unfolding events_of
  IsChain-here id e rows same c = rw same at c

  -- On a chain the query for the highest sequence number finds the newest event.
  pub latest-eq-head :
      (id : ℕ) (rows : List RunEvent)
      → IsChain (events_of id rows)
      → latest id rows ≡ head? (events_of id rows)
  unfolding latest events_of
  latest-eq-head id [] c = refl
  latest-eq-head id (e ∷ rows) c = elim (Bool-cases (e.run_id == id)) [
    | inl same ↦
        let c' = IsChain-here id e rows same c in
        rw same (rw (latest-eq-head id rows c'.3) (pick-head e (events_of id rows) c'))
    | inr other ↦ rw other (latest-eq-head id rows (IsChain-skip id e rows other c))
  ]

  -- If the events of a run form a hash chain, then the query for the highest sequence number and
  -- its hash yields one more than the number of events of the run and the hash of the newest one
  -- (the zero hash, if there is none).
  pub place-of_chain :
      (id : ℕ) (rows : List RunEvent)
      → IsChain (events_of id rows)
      → next_sequence_and_prev_hash true rows id
        ≡ (suc (length (events_of id rows)), last_hash (events_of id rows))
  unfolding next_sequence_and_prev_hash
  place-of_chain id rows c =
      rw (latest-eq-head id rows c, next_sequence_and_prev_hash) (from_head (events_of id rows) c)
    where
      from_head :
          (es : List RunEvent)
          → IsChain es
          → next_place (head? es) ≡ (suc (length es), last_hash es)
      from_head [] d = refl
      from_head (e ∷ es) d = ground arith

  pub first-in-chain :
      (id : ℕ) (rows : List RunEvent)
      → IsChain (events_of id rows)
      → any (is_first id) rows ≡ false
      → events_of id rows ≡ []
  unfolding events_of
  first-in-chain id [] c h = refl
  first-in-chain id (e ∷ rows) c h = elim (Bool-cases (e.run_id == id)) [
    | inl same ↦
        let c' = IsChain-here id e rows same c in
        let rest : events_of id rows ≡ [] = first-in-chain id rows c'.3 (ground arith) in
        let one : e.sequence ≡ 1 = rw rest at (c'.0) in ground arith
    | inr other ↦ rw other (first-in-chain id rows (IsChain-skip id e rows other c) (ground arith))
  ]

pub record Inserted (db db' : Db) (row : RunEvent) : Type 0 where
  pub appended : db'.run_events ≡ row ∷ db.run_events
  pub runs : db'.runs ≡ db.runs
  pub fresh :
      any
        (λ e. e.event_id == row.event_id || (e.run_id == row.run_id && e.sequence == row.sequence))
        db.run_events
      ≡ false
  pub known : any (λ r. r.run_id == row.run_id) db.runs ≡ true

pub insert_event_row-Inserted :
    (db db' : Db) (row : RunEvent) → insert_event_row db row ≡ ok db' → Inserted db db' row
unfolding insert_event_row insert
insert_event_row-Inserted db db' row h = ground arith
