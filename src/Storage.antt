-- ===== src/Storage.antt =====
-- backend/src/services/storage.rs: files under the storage root, by their keys.
use aleth_os_tool_passport.Prelude.{
  ℕ, Bool, false, not, ◌&&◌, List, [], ◌∷◌, ◌++◌, ltb, ◌==◌, Text, codes, ◌=ₜ◌, Result, ok, ◌>>◌,
  refuse, any, all, split_on, keep, length,
}
use aleth_os_tool_passport.Platform.{Platform}
use aleth_os_tool_passport.Errors.{StorageError, io, too_large, invalid_storage_key}

pub record StoredFile : Type 0 where
  pub storage_key : Text
  pub size_bytes : ℕ
  pub sha256_hash : Text

pub record File : Type 0 where
  pub storage_key : Text
  pub content : List ℕ

-- What the file system answers: whether the directories of a key can be made and stay under the
-- root, whether a write succeeds, and whether an unlink does.
pub record Disk : Type 0 where
  pub resolves : Text → Result StorageError (Unit {0})
  pub writes : Text → Bool
  pub unlinks : Text → Bool

-- one component of a path; `Path::components` skips empty ones, and `.` unless it is the first
abbrev is_normal : Text → Bool
is_normal part = not (part =ₜ codes "..")

abbrev is_absolute : Text → Bool
is_absolute [] = false
is_absolute (c ∷ s) = c == 47

abbrev starts_in_place : List Text → Bool
starts_in_place [] = false
starts_in_place (part ∷ parts) = part =ₜ codes "."

-- the first test of `resolve_storage_key`
unfoldable pub is_plain_key : Text → Bool
is_plain_key key =
    not (is_absolute key)
    && not (starts_in_place (split_on 47 key))
    && all is_normal (split_on 47 key)

unfoldable pub resolve_storage_key : Disk → Text → Result StorageError (Unit {0})
unfolding is_plain_key
resolve_storage_key disk key = do
  refuse (not (is_plain_key key)) invalid_storage_key
  disk.resolves key

module _ (p : Platform) (disk : Disk) where
  -- `create_new` fails on a file that exists; a write that fails takes the new file away again.
  unfoldable pub save_file :
      ℕ → Text → List ℕ → List File → Result StorageError (StoredFile × List File)
  save_file max_bytes storage_key content files = do
    refuse (ltb max_bytes (length content)) (too_large max_bytes)
    resolve_storage_key disk storage_key
    refuse (any (λ f. f.storage_key =ₜ storage_key) files) io
    refuse (not (disk.writes storage_key)) io
    ok (
      record {
        storage_key = storage_key;
        size_bytes = length content;
        sha256_hash = codes "0x" ++ p.hex_encode (p.sha256_bytes content);
      },
      record { storage_key = storage_key; content = content } ∷ files,
    )

  unfoldable pub save_artifact :
      ℕ → ℕ → ℕ → List ℕ → List File → Result StorageError (StoredFile × List File)
  save_artifact max_bytes run_id artifact_id content files =
      save_file max_bytes (p.uuid_text run_id ++ codes "/artifacts/" ++ p.uuid_text artifact_id)
        content files

  unfoldable pub save_evidence :
      ℕ → ℕ → ℕ → List ℕ → List File → Result StorageError (StoredFile × List File)
  save_evidence max_bytes run_id evidence_id content files =
      save_file max_bytes
        (p.uuid_text run_id ++ codes "/evidence/" ++ p.uuid_text evidence_id ++ codes ".json")
        content files

-- A file that is not there counts as removed.
unfoldable pub remove_file : Disk → Text → List File → Result StorageError (List File)
remove_file disk storage_key files = do
  resolve_storage_key disk storage_key
  refuse (any (λ f. f.storage_key =ₜ storage_key) files && not (disk.unlinks storage_key)) io
  ok (keep (λ f. not (f.storage_key =ₜ storage_key)) files)
