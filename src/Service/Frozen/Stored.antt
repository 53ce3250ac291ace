-- ===== src/Service/Frozen/Stored.antt =====
-- Evidence of a board and the entries of its manifest, against the stored rows.
use aleth_os_tool_passport.Prelude.{
  ℕ, ◌≡◌, refl, inl, inr, subst, sym, ◌∙◌, Bool, true, ◌&&◌, some, List, [], ◌∷◌, map, arith, ◌==◌,
  Text, ◌=ₜ◌, =ₜ_refl, ok, ap, ==→≡, >>=-eq-ok, ok_or-ok, ok_injective, ok_or, All, any, sort_on,
  any-sort_on, find_last, keep, Bool-cases, Option-cases,
}
use mathlib.Core.Path.{ap₂}
use aleth_os_tool_passport.Platform.{Platform}
use aleth_os_tool_passport.Domain.Evidence.{Artifact, Evidence}
use aleth_os_tool_passport.Domain.Board.{EvidenceManifestEntry}
use aleth_os_tool_passport.Store.{Db}
use aleth_os_tool_passport.Store.Records.{list_evidence}
use aleth_os_tool_passport.Service.Board.{evidence_of_board, snapshot_hash, manifest_entries}

-- a row of the run with this ID and this hash
abbrev pub IsStored : Db → ℕ → ℕ → Text → Type 0
IsStored db run_id evidence_id content_hash =
    any
      (λ e. e.run_id == run_id && (e.evidence_id == evidence_id && e.content_hash =ₜ content_hash))
      db.evidence
    ≡ true

module _ (p : Platform) where
  any-keep :
      (test sel : Evidence → Bool) (es : List Evidence)
      → any test (keep sel es) ≡ any (λ e. sel e && test e) es
  any-keep test sel [] = refl
  any-keep test sel (e ∷ es) =
      let rest = any-keep test sel es in
      elim (Bool-cases (sel e)) [
        | inl yes_it ↦ rw yes_it (ground arith)
        | inr no_it ↦ rw no_it rest
      ]

  find_last-true :
      (test : Evidence → Bool) (es : List Evidence) {x : Evidence}
      → find_last test es ≡ some x
      → test x ≡ true
  find_last-true test [] h = ground arith
  find_last-true test (y ∷ es) {x} h = elim (Option-cases (find_last test es)) [
    | inl nothing ↦ ground arith
    | inr (z, found) ↦ ground (arith, find_last-true test es {x = x})
  ]

  find_last-any :
      (test more : Evidence → Bool) (es : List Evidence) {e : Evidence}
      → find_last test es ≡ some e
      → more e ≡ true
      → any (λ x. test x && more x) es ≡ true
  find_last-any test more [] h m = ground arith
  find_last-any test more (x ∷ es) {e} h m = elim (Option-cases (find_last test es)) [
    | inl nothing ↦ ground arith
    | inr (y, found) ↦
        let same : y ≡ e = ground arith in
        let rest = find_last-any test more es {e = y} found (rw same m) in ground arith
  ]

  any-list_evidence :
      (db : Db) (run_id : ℕ) (test : Evidence → Bool)
      → any test (list_evidence p db run_id) ≡ any (λ e. e.run_id == run_id && test e) db.evidence
  unfolding list_evidence
  any-list_evidence db run_id test =
      any-sort_on (λ e. p.format_timestamp e.created_at) test
        (sort_on (λ e. p.uuid_text e.evidence_id) (keep (λ e. e.run_id == run_id) db.evidence))
      ∙ any-sort_on (λ e. p.uuid_text e.evidence_id) test
          (keep (λ e. e.run_id == run_id) db.evidence)
      ∙ any-keep test (λ e. e.run_id == run_id) db.evidence

  pub evidence_of_board-IsStored :
      (db : Db) (run_id : ℕ) (ids : List ℕ) (es : List Evidence)
      → evidence_of_board p (list_evidence p db run_id) ids ≡ ok es
      → (map (λ e. e.evidence_id) es ≡ ids)
        × All (λ e. IsStored db run_id e.evidence_id e.content_hash) es
  unfolding evidence_of_board
  evidence_of_board-IsStored db run_id [] es h =
      subst
        (λ x.
          (map (λ e. e.evidence_id) x ≡ [])
          × All (λ e. IsStored db run_id e.evidence_id e.content_hash) x)
        (ok_injective h) (refl, tt)
  evidence_of_board-IsStored db run_id (id ∷ ids) es h =
      let (e, found, h₁) =
        >>=-eq-ok (ok_or _ (find_last (λ x. x.evidence_id == id) (list_evidence p db run_id))) _
          h in
      let (rest, more, h₂) = >>=-eq-ok (evidence_of_board p (list_evidence p db run_id) ids) _ h₁ in
      let (same, stored) = evidence_of_board-IsStored db run_id ids rest more in
      let found' = ok_or-ok _ _ found in
      let id_of : e.evidence_id ≡ id =
        ==→≡ e.evidence_id id
          (find_last-true (λ x. x.evidence_id == id) (list_evidence p db run_id) {x = e} found') in
      let here =
        find_last-any (λ x. x.evidence_id == id) (λ x. x.content_hash =ₜ e.content_hash)
          (list_evidence p db run_id) {e = e} found' (=ₜ_refl e.content_hash) in
      let one : IsStored db run_id id e.content_hash =
        sym (
          any-list_evidence db run_id
            (λ x. x.evidence_id == id && x.content_hash =ₜ e.content_hash))
        ∙ here in
      subst
        (λ x.
          (map (λ y. y.evidence_id) x ≡ (id ∷ ids))
          × All (λ y. IsStored db run_id y.evidence_id y.content_hash) x)
        (ok_injective h₂)
        (
          ap₂ (λ x xs. x ∷ xs) id_of same,
          (subst (λ i. IsStored db run_id i e.content_hash) (sym id_of) one, stored),
        )

  pub manifest_entries-IsStored :
      (db : Db) (run_id : ℕ) (artifacts : List Artifact) (es : List Evidence)
      (entries : List EvidenceManifestEntry)
      → All (λ e. IsStored db run_id e.evidence_id e.content_hash) es
      → manifest_entries p artifacts es ≡ ok entries
      → (map (λ m. m.evidence_id) entries ≡ map (λ e. e.evidence_id) es)
        × All (λ m. IsStored db run_id m.evidence_id m.content_hash) entries
  unfolding manifest_entries
  manifest_entries-IsStored db run_id artifacts [] entries s h =
      subst
        (λ x.
          (map (λ m. m.evidence_id) x ≡ [])
          × All (λ m. IsStored db run_id m.evidence_id m.content_hash) x)
        (ok_injective h) (refl, tt)
  manifest_entries-IsStored db run_id artifacts (e ∷ es) entries s h =
      let (hash, _, h₁) =
        >>=-eq-ok (snapshot_hash p artifacts e.evidence_id e.snapshot_artifact_id) _ h in
      let (rest, more, h₂) = >>=-eq-ok (manifest_entries p artifacts es) _ h₁ in
      let (same, stored) = manifest_entries-IsStored db run_id artifacts es rest s.1 more in
      subst
        (λ x.
          (map (λ m. m.evidence_id) x ≡ (e.evidence_id ∷ map (λ y. y.evidence_id) es))
          × All (λ m. IsStored db run_id m.evidence_id m.content_hash) x)
        (ok_injective h₂) (ap (λ xs. e.evidence_id ∷ xs) same, (s.0, stored))
