-- ===== src/Store/Listings.antt =====
-- The lists of runs and of the events of a run in backend/src/repository/mod.rs.
use aleth_os_tool_passport.Prelude.{
  ℕ, suc, ◌<◌, ◌≡◌, refl, false, List, [], ◌∷◌, ◌++◌, arith, ◌==◌, Text, ap, All, All-map,
  All-append, sort_on, keep, reversed, insert_on, le_text, length,
}
use aleth_os_tool_passport.Platform.{Platform}
use aleth_os_tool_passport.Domain.Run.{Run}
use aleth_os_tool_passport.Domain.RunEvent.{RunEvent}
use aleth_os_tool_passport.Store.{Db}
use aleth_os_tool_passport.Store.Chain.{IsChain, events_of}

-- `ORDER BY created_at DESC, run_id DESC`
unfoldable pub list_runs : Platform → Db → List Run
list_runs p db =
    reversed
      (sort_on (λ r. p.format_timestamp r.created_at) (sort_on (λ r. p.uuid_text r.run_id) db.runs))

-- a sequence number as a key of a sort
abbrev pub place_of : RunEvent → Text
place_of e = e.sequence ∷ []

-- `ORDER BY sequence ASC`
unfoldable pub list_events : Db → ℕ → List RunEvent
list_events db run_id = sort_on place_of (keep (λ e. e.run_id == run_id) db.run_events)

place-later : (x y : RunEvent) → y.sequence < x.sequence → le_text (place_of x) (place_of y) ≡ false
unfolding le_text
place-later x y h = grind arith

insert_on-last :
    (x : RunEvent) (ys : List RunEvent)
    → All (λ y. y.sequence < x.sequence) ys
    → insert_on place_of x ys ≡ ys ++ (x ∷ [])
unfolding insert_on
insert_on-last x [] h = refl
insert_on-last x (y ∷ ys) h =
    let later = place-later x y h.0 in
    rw (insert_on, later) (ap (λ zs. y ∷ zs) (insert_on-last x ys h.1))

module _ (p : Platform) where
  below-chain :
      (es : List RunEvent) → IsChain p es → All (λ y. y.sequence < suc (length es)) (reversed es)
  below-chain [] c = tt
  below-chain (e ∷ es) c =
      All-append (λ y. y.sequence < suc (suc (length es))) (reversed es) (e ∷ [])
        (All-map (λ y. y.sequence < suc (length es)) (λ y. y.sequence < suc (suc (length es)))
          (λ y h. omega (arith, h)) (reversed es) (below-chain es c.3))
        (let at = c.0 in omega arith, tt)

  sort-chain : (es : List RunEvent) → IsChain p es → sort_on place_of es ≡ reversed es
  unfolding sort_on
  sort-chain [] c = refl
  sort-chain (e ∷ es) c =
      let rest = sort-chain es c.3 in
      let at = c.0 in
      rw rest (
        insert_on-last e (reversed es) (
          All-map (λ y. y.sequence < suc (length es)) (λ y. y.sequence < e.sequence)
            (λ y h. omega (arith, h, at)) (reversed es) (below-chain es c.3)))

  -- If the events of a run form a hash chain, then list_events, which sorts the rows of the run by
  -- their sequence numbers, gives the chain from its first event to its newest one.
  pub list_events-chain :
      (db : Db) (run_id : ℕ)
      → IsChain p (events_of run_id db.run_events)
      → list_events db run_id ≡ reversed (events_of run_id db.run_events)
  unfolding list_events events_of
  list_events-chain db run_id c = sort-chain (keep (λ e. e.run_id == run_id) db.run_events) c
