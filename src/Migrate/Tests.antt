-- ===== src/Migrate/Tests.antt =====
-- Runs over two files.
use festival_service.Prelude.{String, ◌==◌, ◌≡◌, refl, ◌⊎◌, some, List, [], ◌∷◌, All, if◌then◌else◌}
use festival_service.Dict.{get}
use festival_service.Errors.{Result, ok, err, runtime_error}
use festival_service.Migrate.{Schema, no_files, changed, broken, ran, failed, run, run_all}
use festival_service.Migrate.Runs.{run_again}
use festival_service.Migrate.Failures.{Stopped, run_failure}

-- The statements that the database has run.
abbrev pub execute : String → List String → Result (List String)
execute sql done = if sql == "BAD" then err runtime_error else ok (sql ∷ done)

abbrev pub checksum : String → String
checksum sql = sql

abbrev pub files : List (String × String)
files = ("0001", "CREATE a") ∷ ("0002", "CREATE b") ∷ []

abbrev pub with_bad : List (String × String)
with_bad = ("0001", "CREATE a") ∷ ("0002", "BAD") ∷ ("0003", "CREATE c") ∷ []

abbrev pub fresh : Schema (List String)
fresh = record { applied = []; rest = [] }

abbrev pub migrated : Schema (List String)
migrated = record {
  applied = ("0001", "CREATE a") ∷ ("0002", "CREATE b") ∷ [];
  rest = "CREATE b" ∷ "CREATE a" ∷ [];
}

abbrev pub halfway : Schema (List String)
halfway = record { applied = ("0001", "CREATE a") ∷ []; rest = "CREATE a" ∷ [] }

first_run : run checksum execute files fresh ≡ ran 2 migrated
unfolding run
first_run = refl

edited_file :
    run checksum execute (("0001", "CREATE a") ∷ ("0002", "CREATE x") ∷ []) migrated
    ≡ failed (changed "0002") migrated
unfolding run
edited_file = refl

bad_run : run checksum execute with_bad fresh ≡ failed (broken runtime_error) halfway
unfolding run
bad_run = refl

run_again_example :
    All (λ (file : String × String). get file.0 migrated.applied ≡ some (checksum file.1)) files
    × ((k c : String) → get k fresh.applied ≡ some c → get k migrated.applied ≡ some c)
    × (run checksum execute files migrated ≡ ran 0 migrated)
run_again_example = run_again checksum execute files fresh 2 migrated first_run

run_failure_example :
    ((with_bad ≡ []) × (broken runtime_error ≡ no_files) × (halfway ≡ fresh))
    ⊎ ((x : Stopped checksum execute fresh.applied 0 with_bad fresh (broken runtime_error) halfway)
        × (run checksum execute with_bad halfway
            ≡ run_all checksum execute halfway.applied 0 ((x.version, x.sql) ∷ x.after) halfway))
run_failure_example =
    run_failure checksum execute with_bad fresh (broken runtime_error) halfway bad_run
