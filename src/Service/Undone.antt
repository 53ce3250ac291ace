-- ===== src/Service/Undone.antt =====
-- What uploads leave: a stored file with its record, or nothing at all.
use aleth_os_tool_passport.Prelude.{
  ℕ, ◌≤◌, ◌≡◌, refl, inl, inr, sym, ◌∙◌, Bool, true, false, not, List, [], ◌∷◌, ◌++◌, arith, ltb,
  Text, codes, ◌=ₜ◌, =ₜ_refl, Result, ok, err, ap, >>=-eq-ok, ok_injective, refuse, Result-cases,
  any, refuse-ok, keep, length, Bool-cases,
}
use aleth_os_tool_passport.Platform.{Platform}
use aleth_os_tool_passport.Domain.RunEvent.{RunEvent}
use aleth_os_tool_passport.Domain.Evidence.{CreateArtifactRequest, CreateEvidenceRequest}
use aleth_os_tool_passport.Errors.{RepositoryError, ServiceError}
use aleth_os_tool_passport.Storage.{
  StoredFile, File, Disk, resolve_storage_key, save_file, save_artifact, save_evidence, remove_file,
}
use aleth_os_tool_passport.Store.{Db}
use aleth_os_tool_passport.Service.{World}
use aleth_os_tool_passport.Service.Uploads.{
  Fresh, artifact_of, request_value, evidence_of, accept_artifact, accept_evidence, removed, settle,
  create_artifact, create_evidence,
}

abbrev at_key : Text → File → Bool
at_key key f = f.storage_key =ₜ key

keep-absent :
    (key : Text) (files : List File)
    → any (at_key key) files ≡ false
    → keep (λ f. not (f.storage_key =ₜ key)) files ≡ files
keep-absent key [] h = refl
keep-absent key (f ∷ files) h =
    let rest = keep-absent key files (ground arith) in
    elim (Bool-cases (f.storage_key =ₜ key)) [
      | inl same ↦ ground arith
      | inr other ↦ rw (other, rest) refl
    ]

-- a file that was saved under a new key, with its size and its hash
pub record IsSaved (p : Platform) (max_bytes : ℕ) (content : List ℕ) (key : Text)
    (stored : StoredFile) (files files' : List File) : Type 0 where
  pub storage_key : stored.storage_key ≡ key
  pub size_bytes : stored.size_bytes ≡ length content
  pub sha256_hash : stored.sha256_hash ≡ codes "0x" ++ p.hex_encode (p.sha256_bytes content)
  pub within : length content ≤ max_bytes
  pub free : any (at_key key) files ≡ false
  pub added : files' ≡ record { storage_key = key; content = content } ∷ files

module _ (p : Platform) (disk : Disk) (max_bytes : ℕ) where
  pub save_file-IsSaved :
      (key : Text) (content : List ℕ) (files files' : List File) (stored : StoredFile)
      → save_file p disk max_bytes key content files ≡ ok (stored, files')
      → (resolve_storage_key disk key ≡ ok tt) × IsSaved p max_bytes content key stored files files'
  unfolding save_file
  save_file-IsSaved key content files files' stored h =
      let (_, small, h₁) = >>=-eq-ok (refuse (ltb max_bytes (length content)) _) _ h in
      let (_, plain_key, h₂) = >>=-eq-ok (resolve_storage_key disk key) _ h₁ in
      let (_, free, h₃) = >>=-eq-ok (refuse (any (at_key key) files) _) _ h₂ in
      let (_, written, h₄) = >>=-eq-ok (refuse (not (disk.writes key)) _) _ h₃ in
      let out = sym (ok_injective h₄) in
      let small' = refuse-ok (ltb max_bytes (length content)) _ small in
      (
        plain_key,
        record {
          storage_key = ap (λ t. t.0.storage_key) out;
          size_bytes = ap (λ t. t.0.size_bytes) out;
          sha256_hash = ap (λ t. t.0.sha256_hash) out;
          within = ground arith;
          free = refuse-ok _ _ free;
          added = ap (λ t. t.1) out;
        },
      )

  -- a file that was just saved can be taken away, and the others stay
  save_file-removed :
      (key : Text) (content : List ℕ) (files files' : List File) (stored : StoredFile)
      → disk.unlinks key ≡ true
      → save_file p disk max_bytes key content files ≡ ok (stored, files')
      → removed disk stored.storage_key files' ≡ files
  unfolding removed remove_file
  save_file-removed key content files files' stored works h =
      let (plain_key, s) = save_file-IsSaved key content files files' stored h in
      let here = =ₜ_refl key in
      rw (s.storage_key, s.added, removed, remove_file, plain_key, here, works)
        (keep-absent key files s.free)

  module _ (read : Bool) (fresh : Fresh) where
    settle-undone {ℓ} :
        {A : Type ℓ} (event : RunEvent) (outcome : Result RepositoryError (A × Db)) (w w' : World)
        (key : Text) (content : List ℕ) (files : List File) (stored : StoredFile) (e : ServiceError)
        → disk.unlinks key ≡ true
        → save_file p disk max_bytes key content w.files ≡ ok (stored, files)
        → settle disk stored.storage_key event outcome (record w { files = files }) ≡ (err e, w')
        → w' ≡ w
    unfolding settle
    settle-undone event (ok (a, db)) w w' key content files stored e works saved h =
        let bad = ap (λ t. t.0) h in cc
    settle-undone event (err failure) w w' key content files stored e works saved h =
        sym (ap (λ t. t.1) h)
        ∙ ap (λ x. record w { files = x })
            (save_file-removed key content w.files files stored works saved)

    -- Suppose that unlinking a file never fails. If create_artifact of the service fails, it
    -- leaves the world, that is the database, the files and the broadcasts, as it was, also when
    -- the file was saved before its record was refused.
    pub create_artifact-undone :
        (run_id : Text) (request : CreateArtifactRequest) (content : List ℕ) (w w' : World)
        (e : ServiceError)
        → ((key : Text) → disk.unlinks key ≡ true)
        → create_artifact p disk max_bytes read fresh run_id request content w ≡ (err e, w')
        → w' ≡ w
    unfolding create_artifact save_artifact artifact_of
    create_artifact-undone run_id request content w w' e works h =
        elim (Result-cases (accept_artifact p w.db run_id request content)) [
          | inl (refused, bad) ↦ sym (ap (λ t. t.1) (rw (create_artifact, bad) at h))
          | inr (id, accepted) ↦
              elim (Result-cases
                (save_artifact p disk max_bytes id fresh.record_id content w.files)) [
                  | inl (lost, bad) ↦ sym (ap (λ t. t.1) (rw (create_artifact, accepted, bad) at h))
                  | inr ((stored, files), saved) ↦
                      settle-undone _ _ w w' _ content files stored e (works _) saved
                        (rw (create_artifact, accepted, saved) at h)
                ]
        ]

    -- Suppose that unlinking a file never fails. If create_evidence of the service fails, it
    -- leaves the world, that is the database, the files and the broadcasts, as it was, also when
    -- the file was saved before its record was refused.
    pub create_evidence-undone :
        (run_id : Text) (request : CreateEvidenceRequest) (w w' : World) (e : ServiceError)
        → ((key : Text) → disk.unlinks key ≡ true)
        → create_evidence p disk max_bytes read fresh run_id request w ≡ (err e, w')
        → w' ≡ w
    unfolding create_evidence save_evidence evidence_of
    create_evidence-undone run_id request w w' e works h =
        let content = p.to_vec (request_value p request) in
        elim (Result-cases (accept_evidence p w.db run_id request)) [
          | inl (refused, bad) ↦ sym (ap (λ t. t.1) (rw (create_evidence, bad) at h))
          | inr (id, accepted) ↦
              elim (Result-cases
                (save_evidence p disk max_bytes id fresh.record_id content w.files)) [
                  | inl (lost, bad) ↦ sym (ap (λ t. t.1) (rw (create_evidence, accepted, bad) at h))
                  | inr ((stored, files), saved) ↦
                      settle-undone _ _ w w' _ content files stored e (works _) saved
                        (rw (create_evidence, accepted, saved) at h)
                ]
        ]
