-- ===== src/Service/Saved.antt =====
-- What a successful upload leaves: the record and the file that it describes.
use aleth_os_tool_passport.Prelude.{
  ℕ, ◌≤◌, ◌≡◌, inl, inr, subst, subst₂, sym, ◌∙◌, Bool, some, List, ◌∷◌, ◌++◌, arith, Text, codes,
  ◌=ₜ◌, =ₜ_refl, Result, ok, err, ap, >>=-eq-ok, ok_injective, Result-cases, find, length,
}
use mathlib.Core.Path.{ap₂}
use aleth_os_tool_passport.Platform.{Platform}
use aleth_os_tool_passport.Domain.RunEvent.{RunEvent}
use aleth_os_tool_passport.Domain.Evidence.{
  Artifact, CreateArtifactRequest, Evidence, CreateEvidenceRequest,
}
use aleth_os_tool_passport.Errors.{RepositoryError}
use aleth_os_tool_passport.Storage.{StoredFile, File, Disk, save_artifact, save_evidence}
use aleth_os_tool_passport.Store.{Db, insert}
use aleth_os_tool_passport.Store.Events.{
  insert_event_row, insert_linked, linked, insert_generated_event, next_sequence_and_prev_hash,
}
use aleth_os_tool_passport.Store.Records
use aleth_os_tool_passport.Store.Records.{insert_artifact, get_artifact, insert_evidence}
use aleth_os_tool_passport.Service.{World}
use aleth_os_tool_passport.Service.Uploads.{
  Fresh, artifact_of, artifact_event, request_value, evidence_of, evidence_event, accept_artifact,
  accept_evidence, settle, create_artifact, create_evidence,
}
use aleth_os_tool_passport.Service.Undone.{IsSaved, save_file-IsSaved}

insert_event_row-records :
    (db db' : Db) (row : RunEvent)
    → insert_event_row db row ≡ ok db'
    → (db'.artifacts ≡ db.artifacts) × (db'.evidence ≡ db.evidence)
unfolding insert_event_row insert
insert_event_row-records db db' row h = (ground arith, ground arith)

insert_artifact-adds :
    (db db' : Db) (a : Artifact) → insert_artifact db a ≡ ok db' → db'.artifacts ≡ a ∷ db.artifacts
unfolding insert_artifact insert
insert_artifact-adds db db' a h = ground arith

insert_evidence-adds :
    (db db' : Db) (e : Evidence) → insert_evidence db e ≡ ok db' → db'.evidence ≡ e ∷ db.evidence
unfolding insert_evidence insert
insert_evidence-adds db db' e h = ground arith

get_artifact-head :
    (db : Db) (a : Artifact) (rows : List Artifact)
    → db.artifacts ≡ a ∷ rows
    → get_artifact db a.artifact_id ≡ some a
unfolding get_artifact
get_artifact-head db a rows e = rw e (ground arith)

settle-ok {ℓ} :
    {A : Type ℓ} (disk : Disk) (key : Text) (event : RunEvent)
    (outcome : Result RepositoryError (A × Db)) (w w' : World) (a : A)
    → settle disk key event outcome w ≡ (ok a, w')
    → (outcome ≡ ok (a, w'.db)) × (w'.files ≡ w.files)
unfolding settle
settle-ok disk key event (err e) w w' a h = let bad = ap (λ t. t.0) h in cc
settle-ok disk key event (ok (b, db)) w w' a h =
    let same = ok_injective (ap (λ t. t.0) h) in
    (ap₂ (λ x y. ok (x, y)) same (ap (λ t. t.1.db) h), sym (ap (λ t. t.1.files) h))

-- the file of a record, which has its size and its hash
pub record IsKeptIn (p : Platform) (max_bytes : ℕ) (content : List ℕ) (files : List File)
    (key : Text) (size : ℕ) (hash : Text) : Type 0 where
  pub found :
      find (λ f. f.storage_key =ₜ key) files
      ≡ some (record { storage_key = key; content = content })
  pub size_bytes : size ≡ length content
  pub sha256_hash : hash ≡ codes "0x" ++ p.hex_encode (p.sha256_bytes content)
  pub within : size ≤ max_bytes

IsSaved-IsKeptIn :
    (p : Platform) (max_bytes : ℕ) (content : List ℕ) (key : Text) (stored : StoredFile)
    (files files' : List File)
    → IsSaved p max_bytes content key stored files files'
    → IsKeptIn p max_bytes content files' stored.storage_key stored.size_bytes stored.sha256_hash
IsSaved-IsKeptIn p max_bytes content key stored files files' s = record {
  found = let here = =ₜ_refl key in rw (s.storage_key, s.added) (ground arith);
  size_bytes = s.size_bytes;
  sha256_hash = s.sha256_hash;
  within = let small = s.within in let same = s.size_bytes in omega arith;
}

module _ (p : Platform) (read : Bool) where
  insert_generated_event-records :
      (db db' : Db) (event : RunEvent) {hash : Text}
      → insert_generated_event p read db event ≡ ok (hash, db')
      → (db'.artifacts ≡ db.artifacts) × (db'.evidence ≡ db.evidence)
  unfolding insert_generated_event insert_linked
  insert_generated_event-records db db' event h =
      let ((row, mid), inserted, rest) = >>=-eq-ok (insert_linked p read db event) _ h in
      let place = next_sequence_and_prev_hash read db.run_events event.run_id in
      let (last, added, h₂) =
        >>=-eq-ok (insert_event_row db (linked p place.0 place.1 event)) _ inserted in
      let (a, e) = insert_event_row-records db last (linked p place.0 place.1 event) added in
      (
        sym (ap (λ t. t.1.artifacts) (ok_injective rest))
            ∙ sym (ap (λ t. t.1.artifacts) (ok_injective h₂))
            ∙ a,
        sym (ap (λ t. t.1.evidence) (ok_injective rest))
            ∙ sym (ap (λ t. t.1.evidence) (ok_injective h₂))
            ∙ e,
      )

  create_artifact-adds :
      (db db' : Db) (a b : Artifact) (event : RunEvent)
      → Records.create_artifact p read db a event ≡ ok (b, db')
      → (a ≡ b) × (db'.artifacts ≡ a ∷ db.artifacts)
  unfolding Records.create_artifact
  create_artifact-adds db db' a b event h =
      let (db₁, added, h₁) = >>=-eq-ok (insert_artifact db a) _ h in
      let ((hash, db₂), logged, h₂) = >>=-eq-ok (insert_generated_event p read db₁ event) _ h₁ in
      (
        ap (λ t. t.0) (ok_injective h₂),
        sym (ap (λ t. t.1.artifacts) (ok_injective h₂))
            ∙ (insert_generated_event-records db₁ db₂ event logged).0
            ∙ insert_artifact-adds db db₁ a added,
      )

  create_evidence-adds :
      (db db' : Db) (a b : Evidence) (event : RunEvent)
      → Records.create_evidence p read db a event ≡ ok (b, db')
      → (a ≡ b) × (db'.evidence ≡ a ∷ db.evidence)
  unfolding Records.create_evidence
  create_evidence-adds db db' a b event h =
      let (db₁, added, h₁) = >>=-eq-ok (insert_evidence db a) _ h in
      let ((hash, db₂), logged, h₂) = >>=-eq-ok (insert_generated_event p read db₁ event) _ h₁ in
      (
        ap (λ t. t.0) (ok_injective h₂),
        sym (ap (λ t. t.1.evidence) (ok_injective h₂))
            ∙ (insert_generated_event-records db₁ db₂ event logged).1
            ∙ insert_evidence-adds db db₁ a added,
      )

  module _ (disk : Disk) (max_bytes : ℕ) (fresh : Fresh) where
    -- If create_artifact of the service succeeds, then the query for the ID of the artifact finds
    -- it, and under its storage key a file with the given content is found; its size is the length
    -- of the content and at most the limit, and its hash is 0x and the hexadecimal SHA-256 of the
    -- content.
    pub create_artifact-IsKeptIn :
        (run_id : Text) (request : CreateArtifactRequest) (content : List ℕ) (w w' : World)
        (a : Artifact)
        → create_artifact p disk max_bytes read fresh run_id request content w ≡ (ok a, w')
        → (get_artifact w'.db a.artifact_id ≡ some a)
          × IsKeptIn p max_bytes content w'.files a.storage_key a.size_bytes a.sha256_hash
    unfolding create_artifact save_artifact artifact_of
    create_artifact-IsKeptIn run_id request content w w' a h =
        elim (Result-cases (accept_artifact p w.db run_id request content)) [
          | inl (refused, bad) ↦ let no_way = ap (λ t. t.0) (rw (create_artifact, bad) at h) in cc
          | inr (id, accepted) ↦
              elim (Result-cases
                (save_artifact p disk max_bytes id fresh.record_id content w.files)) [
                  | inl (lost, bad) ↦
                      let no_way = ap (λ t. t.0) (rw (create_artifact, accepted, bad) at h) in cc
                  | inr ((stored, files), saved) ↦
                      let b = artifact_of p fresh id request stored in
                      let (made, same) =
                        settle-ok disk b.storage_key _ _ (record w { files = files }) w' a
                          (rw (create_artifact, accepted, saved) at h) in
                      let (own, stored_rows) =
                        create_artifact-adds w.db w'.db b a (artifact_event p fresh b) made in
                      let (_, s) =
                        save_file-IsSaved p disk max_bytes _ content w.files files stored saved in
                      (
                        subst (λ x. get_artifact w'.db x.artifact_id ≡ some x) own
                            (get_artifact-head w'.db b w.db.artifacts stored_rows),
                        subst₂
                            (λ x fs.
                              IsKeptIn p max_bytes content fs x.storage_key x.size_bytes
                                x.sha256_hash)
                            own (sym same)
                            (IsSaved-IsKeptIn p max_bytes content _ stored w.files files s),
                      )
                ]
        ]

    -- If create_evidence of the service succeeds, then its record is the newest row of evidence,
    -- and under its storage key a file with the JSON of the request is found; its size is the
    -- length of that content and at most the limit, and its hash is 0x and the hexadecimal SHA-256
    -- of the content.
    pub create_evidence-IsKeptIn :
        (run_id : Text) (request : CreateEvidenceRequest) (w w' : World) (e : Evidence)
        → create_evidence p disk max_bytes read fresh run_id request w ≡ (ok e, w')
        → (w'.db.evidence ≡ e ∷ w.db.evidence)
          × IsKeptIn p max_bytes
              (p.to_vec (request_value p request))
              w'.files
              e.storage_key
              e.size_bytes
              e.content_hash
    unfolding create_evidence save_evidence evidence_of
    create_evidence-IsKeptIn run_id request w w' e h =
        let content = p.to_vec (request_value p request) in
        elim (Result-cases (accept_evidence p w.db run_id request)) [
          | inl (refused, bad) ↦ let no_way = ap (λ t. t.0) (rw (create_evidence, bad) at h) in cc
          | inr (id, accepted) ↦
              elim (Result-cases
                (save_evidence p disk max_bytes id fresh.record_id content w.files)) [
                  | inl (lost, bad) ↦
                      let no_way = ap (λ t. t.0) (rw (create_evidence, accepted, bad) at h) in cc
                  | inr ((stored, files), saved) ↦
                      let b = evidence_of p fresh id request stored in
                      let (made, same) =
                        settle-ok disk b.storage_key _ _ (record w { files = files }) w' e
                          (rw (create_evidence, accepted, saved) at h) in
                      let (own, stored_rows) =
                        create_evidence-adds w.db w'.db b e (evidence_event p fresh b) made in
                      let (_, s) =
                        save_file-IsSaved p disk max_bytes _ content w.files files stored saved in
                      (
                        stored_rows ∙ ap (λ x. x ∷ w.db.evidence) own,
                        subst₂
                            (λ x fs.
                              IsKeptIn p max_bytes content fs x.storage_key x.size_bytes
                                x.content_hash)
                            own (sym same)
                            (IsSaved-IsKeptIn p max_bytes content _ stored w.files files s),
                      )
                ]
        ]
