-- ===== src/Migrate.antt =====
-- app/platform/migrate.py: plain SQL files, applied in order, once. Discover has the files of the
-- directory, Replicas the advisory lock. SHA-256 and what a file's statements do to the database are
-- parameters; the connection is left out.
pub mod Runs
pub mod Failures
pub mod Replicas
pub mod Discover
mod Tests
use festival_service.Prelude.{
  ℕ, ◌+◌, String, Bool, true, false, not, ◌==◌, Option, none, some, List, [], ◌∷◌, if◌then◌else◌,
}
use festival_service.Errors.{Exception, integrity_error, Result, ok, err, ◌>>=◌}
use festival_service.Dict.{Dict, get, contains, set}

-- The ways in which a run fails: MigrationError, or the error of a file's statements.
pub data Failure : Type 0 where
  no_files : Failure
  changed : String → Failure
  broken : Exception → Failure

-- The database: its `schema_migrations`, from version to checksum, and all else.
pub record Schema (S : Type 0) : Type 0 where
  pub applied : Dict String
  pub rest : S

-- How a run ends, and the database that it leaves.
pub data Outcome (S : Type 0) : Type 0 where
  ran : ℕ → Schema S → Outcome S
  failed : Failure → Schema S → Outcome S

-- `INSERT INTO schema_migrations`, whose key is the version; `rest` is what the file's own
-- statements have made of the database.
unfoldable pub record_version : {S : Type 0} → String → String → S → Schema S → Result (Schema S)
unfolding contains set
record_version version checksum rest schema =
    if contains version schema.applied
    then err integrity_error
    else ok (record { applied = set version checksum schema.applied; rest = rest })

-- `execute` is what the statements of a file do.
module _ {S : Type 0} (sha256 : String → String) (execute : String → S → Result S) where
  -- The transaction of one file: what raises in it leaves the database as it was.
  unfoldable pub apply_file : String → String → Schema S → Result (Schema S)
  unfolding record_version
  apply_file version sql schema = do
    rest ← execute sql schema.rest
    record_version version (sha256 sql) rest schema

  -- The loop over the files, from the number of those that ran before.
  unfoldable pub run_all : Dict String → ℕ → List (String × String) → Schema S → Outcome S
  unfolding apply_file get
  run_all applied count [] schema = ran count schema
  run_all applied count ((version, sql) ∷ migrations) schema = elim (get version applied) [
    | some checksum ↦ elim (not (checksum == sha256 sql)) [
      | true ↦ failed (changed version) schema
      | false ↦ run_all applied count migrations schema
    ]
    | none ↦ elim (apply_file version sql schema) [
      | err e ↦ failed (broken e) schema
      | ok schema' ↦ run_all applied (count + 1) migrations schema'
    ]
  ]

  -- `run`, with the files of the directory as `_discover` sorts them.
  unfoldable pub run : List (String × String) → Schema S → Outcome S
  unfolding run_all
  run [] schema = failed no_files schema
  run (file ∷ files) schema = run_all schema.applied 0 (file ∷ files) schema
