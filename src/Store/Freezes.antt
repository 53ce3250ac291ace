-- ===== src/Store/Freezes.antt =====
-- The frozen Passports of backend/src/repository/mod.rs: a Passport and its provenance, written in one
-- transaction with the event that they commit to.
use aleth_os_tool_passport.Prelude.{
  ℕ, ◌+◌, Bool, ◌&&◌, Option, none, some, List, [], ◌∷◌, ltb, ◌==◌, if◌then◌else◌, Text, Result, ok,
  ◌>>=◌, map_err, any, find,
}
use aleth_os_tool_passport.Platform.{Platform}
use aleth_os_tool_passport.Domain.RunEvent.{RunEvent}
use aleth_os_tool_passport.Domain.Passport.{Passport, Provenance, PassportFreezeResult}
use aleth_os_tool_passport.Errors.{
  SqlError, RepositoryError, database, unique_violation, is_unique_violation,
}
use aleth_os_tool_passport.Store.{Db, ProvenanceRow, insert}
use aleth_os_tool_passport.Store.Events.{insert_generated_event}

-- how the repository reports that an INSERT failed
unfoldable pub insert_error : SqlError → RepositoryError
insert_error e = if is_unique_violation e then unique_violation else database e

-- `MAX(sequence)` of a run
unfoldable pub max_sequence : ℕ → List Passport → Option ℕ
max_sequence run_id [] = none
max_sequence run_id (row ∷ rows) =
    let rest = max_sequence run_id rows in
    if row.run_id == run_id
    then elim rest [
      | none ↦ some row.passport_sequence
      | some n ↦ some (if ltb n row.passport_sequence then row.passport_sequence else n)
    ]
    else rest

unfoldable pub next_passport_sequence : Db → ℕ → ℕ
next_passport_sequence db run_id = elim (max_sequence run_id db.passports) [
  | none ↦ 1
  | some n ↦ n + 1
]

unfoldable pub insert_passport : Db → Passport → Result RepositoryError Db
insert_passport db passport = do
  rows ← map_err insert_error (
      insert (ltb 0 passport.passport_sequence)
        (λ x. x.run_id == passport.run_id && x.passport_sequence == passport.passport_sequence)
        (any (λ r. r.run_id == passport.run_id) db.runs) passport db.passports)
  ok (record db { passports = rows })

unfoldable pub insert_provenance : Db → ProvenanceRow → Result RepositoryError Db
insert_provenance db row = do
  rows ← map_err insert_error (
      insert (ltb 0 row.freeze_version)
        (λ x. x.run_id == row.run_id && x.freeze_version == row.freeze_version)
        (any (λ x. x.run_id == row.run_id && x.passport_sequence == row.freeze_version)
          db.passports)
        row db.provenances)
  ok (record db { provenances = rows })

-- the provenance is stamped with the hash of the event
abbrev pub stamped : Passport → Provenance → Text → ProvenanceRow
stamped passport provenance hash = record {
  run_id = passport.run_id;
  freeze_version = passport.passport_sequence;
  provenance = record provenance { audit_log_hash = hash };
}

unfoldable pub create_passport_freeze :
    Platform
    → Bool
    → Db
    → Passport
    → Provenance
    → RunEvent
    → Result RepositoryError (PassportFreezeResult × Db)
create_passport_freeze p read db passport provenance event = do
  (hash, db₁) ← insert_generated_event p read db event
  db₂ ← insert_passport db₁ passport
  db₃ ← insert_provenance db₂ (stamped passport provenance hash)
  ok (
    record { passport = passport; provenance = (stamped passport provenance hash).provenance },
    db₃,
  )

-- the join of the two tables
unfoldable pub get_passport_freeze : Db → ℕ → ℕ → Option PassportFreezeResult
get_passport_freeze db run_id sequence =
    elim (find (λ x. x.run_id == run_id && x.passport_sequence == sequence) db.passports) [
      | none ↦ none
      | some passport ↦
          elim (find (λ x. x.run_id == run_id && x.freeze_version == sequence) db.provenances) [
            | none ↦ none
            | some row ↦ some (record { passport = passport; provenance = row.provenance })
          ]
    ]
