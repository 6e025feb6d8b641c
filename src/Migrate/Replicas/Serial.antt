-- ===== src/Migrate/Replicas/Serial.antt =====
-- What the advisory lock of app/platform/migrate.py makes of replicas that start at once.
use festival_service.Prelude.{
  ℕ, String, ◌≡◌, refl, sym, ◌∙◌, ap, inl, some, List, [], ◌∷◌, ◌++◌, All, subst,
}
use festival_service.Errors.{Result}
use festival_service.Dict.{get}
use festival_service.Migrate.{Schema, Outcome, ran}
use festival_service.Migrate.Runs.{run_all_records, run_all_nothing}
use festival_service.Migrate.Replicas.Fair.{
  whole, Serial, Inside, IsFair, enter-IsFair, behind, acquire-IsFair, apply-IsFair,
}
use festival_service.Migrate.Replicas.{
  Phase, waiting, locked, applying, finished, Race, start, schema_of, advance, race,
}

module _ {S : Type 0} (sha256 : String → String) (execute : String → S → Result S)
    (files : List (String × String)) where
  advance-IsFair :
      {first : Schema S} (i : ℕ) (phase : Phase) (r : Race S)
      → r.phases i ≡ phase
      → IsFair sha256 execute files first r
      → IsFair sha256 execute files first (advance sha256 execute files i phase r)
  unfolding advance Inside
  advance-IsFair i waiting r at_phase fair =
      acquire-IsFair sha256 execute files i r.holder r refl fair
  advance-IsFair i locked r at_phase fair =
      let b = behind sha256 execute files i locked r at_phase refl fair in
      enter-IsFair sha256 execute files i (applying r.schema.applied 0 files) r.schema r.holder r
        b.entry b.history b.holder (ap (whole sha256 execute files) b.inside) b.others
  advance-IsFair i (applying applied count rest) r at_phase fair =
      apply-IsFair sha256 execute files i applied count rest r
        (behind sha256 execute files i (applying applied count rest) r at_phase refl fair)
  advance-IsFair i finished r at_phase fair = fair

  race-IsFair :
      {first : Schema S} (schedule : List ℕ) (r : Race S)
      → IsFair sha256 execute files first r
      → IsFair sha256 execute files first (race sha256 execute files schedule r)
  unfolding race
  race-IsFair [] r fair = fair
  race-IsFair (i ∷ schedule) r fair =
      race-IsFair schedule (advance sha256 execute files i (r.phases i) r)
        (advance-IsFair i (r.phases i) r refl fair)

  start-IsFair : (schema : Schema S) → IsFair sha256 execute files schema (start schema)
  unfolding start Serial
  start-IsFair schema = record {
    entry = schema;
    history = refl;
    now = inl (record { holder = refl; same = refl; others = λ j. refl });
  }

  -- In whatever order replicas take their steps, their runs end as they would one after the other.
  race-Serial :
      (schedule : List ℕ) (schema : Schema S)
      → (last : Schema S) × Serial sha256 execute files schema
          (race sha256 execute files schedule (start schema)).outcomes
          last
  race-Serial schedule schema =
      let fair = race-IsFair schedule (start schema) (start-IsFair schema) in
      (fair.entry, fair.history)

  -- After a run that succeeds every file is recorded, and each of the runs that end later does
  -- nothing.
  settled :
      (later earlier : List (Outcome S)) (n : ℕ) (first s last : Schema S)
      → Serial sha256 execute files first (later ++ ran n s ∷ earlier) last
      → (s ≡ last)
        × All (λ (file : String × String). get file.0 s.applied ≡ some (sha256 file.1)) files
        × All (λ (o : Outcome S). o ≡ ran 0 s) later
  unfolding Serial schema_of
  settled [] earlier n first s last (found, history, done, left) = (
    left,
    run_all_records sha256 execute found.applied 0 files found n s (λ k c old. old) done,
    tt,
  )
  settled (o ∷ later) earlier n first s last (found, history, done, left) =
      let (same, recorded, rest) = settled later earlier n first s found history in
      let again : o ≡ ran 0 s =
        sym done
        ∙ ap (whole sha256 execute files) (sym same)
        ∙ run_all_nothing sha256 execute s.applied files s 0 recorded in
      (sym (ap schema_of again) ∙ left, recorded, (again, rest))

  -- Replicas start at once and take their steps in any order. When the run of one has succeeded,
  -- every file is recorded under its checksum, and of every run that ends after it the count is 0
  -- and the database is as that one left it.
  pub race_lem :
      (schedule : List ℕ) (schema : Schema S) (later earlier : List (Outcome S)) (n : ℕ)
      (s : Schema S)
      → (race sha256 execute files schedule (start schema)).outcomes ≡ later ++ ran n s ∷ earlier
      → All (λ (file : String × String). get file.0 s.applied ≡ some (sha256 file.1)) files
        × All (λ (o : Outcome S). o ≡ ran 0 s) later
  race_lem schedule schema later earlier n s ended =
      let (last, history) = race-Serial schedule schema in
      let (same, recorded, rest) =
        settled later earlier n schema s last
          (subst (λ outcomes. Serial sha256 execute files schema outcomes last) ended history) in
      (recorded, rest)
