-- ===== src/Migrate/Replicas/Tests.antt =====
-- Replicas over two files.
use festival_service.Prelude.{ℕ, String, ◌≡◌, refl, some, List, [], ◌∷◌, All}
use festival_service.Errors.{runtime_error}
use festival_service.Dict.{get}
use festival_service.Migrate.{Outcome, ran, failed, broken}
use festival_service.Migrate.Tests.{execute, checksum, files, with_bad, fresh, migrated, halfway}
use festival_service.Migrate.Replicas.{start, race}
use festival_service.Migrate.Replicas.Serial.{race_lem}

-- The second replica gets in first, and the other one's turns are in between.
abbrev schedule : List ℕ
schedule = 1 ∷ 0 ∷ 1 ∷ 1 ∷ 0 ∷ 1 ∷ 0 ∷ 1 ∷ 0 ∷ 0 ∷ 0 ∷ 0 ∷ 0 ∷ []

one_wins :
    (race checksum execute files schedule (start fresh)).outcomes
    ≡ ran 0 migrated ∷ ran 2 migrated ∷ []
unfolding race start
one_wins = refl

-- With a file that fails, the other replica starts from that file, and fails too.
both_fail :
    (race checksum execute with_bad schedule (start fresh)).outcomes
    ≡ failed (broken runtime_error) halfway ∷ failed (broken runtime_error) halfway ∷ []
unfolding race start
both_fail = refl

race_lem_example :
    All (λ (file : String × String). get file.0 migrated.applied ≡ some (checksum file.1)) files
    × All (λ (o : Outcome (List String)). o ≡ ran 0 migrated) (ran 0 migrated ∷ [])
race_lem_example =
    race_lem checksum execute files schedule fresh (ran 0 migrated ∷ []) [] 2 migrated one_wins
