-- ===== src/Migrate/Replicas.antt =====
-- `run` of app/platform/migrate.py in several replicas at once, on one database. A replica is where
-- its `run` waits for the database next; the advisory lock lets one of them through at a time. The
-- files were found before, and every replica has the same. A connection that is lost, which frees
-- its lock, is left out.
pub mod Fair
pub mod Serial
mod Tests
use festival_service.Prelude.{
  ℕ, ◌+◌, String, true, false, not, ◌==◌, Option, none, some, List, [], ◌∷◌, nat_eq, if◌then◌else◌,
}
use festival_service.Errors.{Result, ok, err}
use festival_service.Dict.{Dict, get}
use festival_service.Migrate.{Schema, Outcome, ran, failed, changed, broken, apply_file}

-- Where a replica is: before the lock, behind it, in the loop (with the versions that it fetched,
-- its count and the files that are left), or at the end of `run`.
pub data Phase : Type 0 where
  waiting : Phase
  locked : Phase
  applying : Dict String → ℕ → List (String × String) → Phase
  finished : Phase

-- The database, the replica that holds the lock, the replicas, and how their runs ended, the last
-- one first.
pub record Race (S : Type 0) : Type 0 where
  pub schema : Schema S
  pub holder : Option ℕ
  pub phases : ℕ → Phase
  pub outcomes : List (Outcome S)

unfoldable pub start : {S : Type 0} → Schema S → Race S
start schema = record { schema = schema; holder = none; phases = λ replica. waiting; outcomes = [] }

unfoldable pub put : ℕ → Phase → (ℕ → Phase) → ℕ → Phase
put i phase phases j = if nat_eq i j then phase else phases j

-- `pg_advisory_lock`: a replica waits while another one holds the lock.
unfoldable pub acquire : {S : Type 0} → ℕ → Option ℕ → Race S → Race S
unfolding put
acquire i none race = record race { holder = some i; phases = put i locked race.phases }
acquire i (some other) race = race

unfoldable pub schema_of : {S : Type 0} → Outcome S → Schema S
schema_of (ran n schema) = schema
schema_of (failed f schema) = schema

-- The `finally`s, which free the lock.
unfoldable pub finish : {S : Type 0} → ℕ → Outcome S → Race S → Race S
unfolding put schema_of
finish i outcome race = record {
  schema = schema_of outcome;
  holder = none;
  phases = put i finished race.phases;
  outcomes = outcome ∷ race.outcomes;
}

unfoldable pub go_on : {S : Type 0} → ℕ → Phase → Schema S → Race S → Race S
unfolding put
go_on i phase schema race = record race { schema = schema; phases = put i phase race.phases }

module _ {S : Type 0} (sha256 : String → String) (execute : String → S → Result S)
    (files : List (String × String)) where
  -- One step of a replica, from where it is.
  unfoldable pub advance : ℕ → Phase → Race S → Race S
  unfolding acquire finish go_on apply_file get
  advance i waiting race = acquire i race.holder race
  advance i locked race = go_on i (applying race.schema.applied 0 files) race.schema race
  advance i (applying applied count []) race = finish i (ran count race.schema) race
  advance i (applying applied count ((version, sql) ∷ rest)) race = elim (get version applied) [
    | some checksum ↦ elim (not (checksum == sha256 sql)) [
      | true ↦ finish i (failed (changed version) race.schema) race
      | false ↦ go_on i (applying applied count rest) race.schema race
    ]
    | none ↦ elim (apply_file sha256 execute version sql race.schema) [
      | err e ↦ finish i (failed (broken e) race.schema) race
      | ok schema ↦ go_on i (applying applied (count + 1) rest) schema race
    ]
  ]
  advance i finished race = race

  -- The replicas take their steps in any order.
  unfoldable pub race : List ℕ → Race S → Race S
  unfolding advance
  race [] r = r
  race (i ∷ schedule) r = race schedule (advance i (r.phases i) r)
