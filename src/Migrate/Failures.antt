-- ===== src/Migrate/Failures.antt =====
-- What a run of app/platform/migrate.py that fails leaves, and where the next run starts.
use festival_service.Prelude.{
  ℕ, ◌+◌, String, false, ◌==◌, ◌≡◌, refl, sym, ◌∙◌, ap, ◌⊎◌, inl, inr, none, some, List, [], ◌∷◌,
  ◌++◌, All, Bool-cases, Option-cases, eq_refl, arith,
}
use festival_service.Errors.{Exception, Result, err, Result-cases}
use festival_service.Dict.{Dict, get}
use festival_service.Migrate.{
  Failure, no_files, changed, broken, Schema, ran, failed, apply_file, run_all, run,
}
use festival_service.Migrate.Runs.{run_all_records}

module _ {S : Type 0} (sha256 : String → String) (execute : String → S → Result S) where
  -- Why a file stops the run, of the checksums that the run found and the database before the file.
  pub data Blocked (applied : Dict String) (version sql : String) (s : Schema S) (f : Failure)
      : Type 0 where
    edited :
        (checksum : String)
        → get version applied ≡ some checksum
        → (checksum == sha256 sql) ≡ false
        → f ≡ changed version
        → Blocked applied version sql s f
    raising :
        (e : Exception)
        → get version applied ≡ none
        → apply_file sha256 execute version sql s ≡ err e
        → f ≡ broken e
        → Blocked applied version sql s f

  -- The run of the files before the one that stopped it.
  pub record Stopped (applied : Dict String) (count : ℕ) (files : List (String × String))
      (s : Schema S) (f : Failure) (s' : Schema S) : Type 0 where
    pub before : List (String × String)
    pub version : String
    pub sql : String
    pub after : List (String × String)
    pub n : ℕ
    pub split : files ≡ before ++ (version, sql) ∷ after
    pub through : run_all sha256 execute applied count before s ≡ ran n s'
    pub why : Blocked applied version sql s' f

  run_all_failed :
      (applied : Dict String) (count : ℕ) (files : List (String × String)) (s : Schema S)
      (f : Failure) (s' : Schema S)
      → run_all sha256 execute applied count files s ≡ failed f s'
      → Stopped applied count files s f s'
  unfolding run_all
  run_all_failed applied count [] s f s' stopped = ground arith
  run_all_failed applied count ((version, sql) ∷ files) s f s' stopped =
      elim (Option-cases (get version applied)) [
        | inr (checksum, old) ↦ elim (Bool-cases (checksum == sha256 sql)) [
          | inl same ↦
              let r =
                run_all_failed applied count files s f s' (rw (run_all, old, same) at stopped) in
              record {
                before = (version, sql) ∷ r.before;
                version = r.version;
                sql = r.sql;
                after = r.after;
                n = r.n;
                split = ap (λ l. (version, sql) ∷ l) r.split;
                through = rw (run_all, old, same) r.through;
                why = r.why;
              }
          | inr other ↦
              let (kind, place) =
                failed_parts (changed version) f s s' (rw (run_all, old, other) at stopped) in
              record {
                before = [];
                version = version;
                sql = sql;
                after = files;
                n = count;
                split = refl;
                through = ap (λ x. ran count x) place;
                why = edited checksum old other (sym kind);
              }
        ]
        | inl new ↦ elim (Result-cases (apply_file sha256 execute version sql s)) [
          | inr (e, raised) ↦
              let (kind, place) =
                failed_parts (broken e) f s s' (rw (run_all, new, raised) at stopped) in
              record {
                before = [];
                version = version;
                sql = sql;
                after = files;
                n = count;
                split = refl;
                through = ap (λ x. ran count x) place;
                why = raising e new (rw place at raised) (sym kind);
              }
          | inl (mid, through) ↦
              let r =
                run_all_failed applied (count + 1) files mid f s'
                  (rw (run_all, new, through) at stopped) in
              record {
                before = (version, sql) ∷ r.before;
                version = r.version;
                sql = r.sql;
                after = r.after;
                n = r.n;
                split = ap (λ l. (version, sql) ∷ l) r.split;
                through = rw (run_all, new, through) r.through;
                why = r.why;
              }
        ]
      ]
    where
      failed_parts : (f g : Failure) (s t : Schema S) → failed f s ≡ failed g t → (f ≡ g) × (s ≡ t)
      failed_parts f g s t same = (cc, cc)

  -- A prefix that is applied is passed over.
  run_all_resumes :
      (applied : Dict String) (before after : List (String × String)) (s : Schema S) (count : ℕ)
      → All (λ (file : String × String). get file.0 applied ≡ some (sha256 file.1)) before
      → run_all sha256 execute applied count (before ++ after) s
        ≡ run_all sha256 execute applied count after s
  unfolding run_all
  run_all_resumes applied [] after s count all = refl
  run_all_resumes applied ((version, sql) ∷ before) after s count (here, rest) =
      let later = run_all_resumes applied before after s count rest in
      rw (run_all, here, eq_refl) later

  -- A run that fails finds no file, or stops at one that was edited after it was applied or that
  -- raises; the database is then as a run of the files before that one leaves it, and the next run
  -- starts at that file.
  pub run_failure :
      (files : List (String × String)) (s : Schema S) (f : Failure) (s' : Schema S)
      → run sha256 execute files s ≡ failed f s'
      → ((files ≡ []) × (f ≡ no_files) × (s' ≡ s))
        ⊎ ((x : Stopped s.applied 0 files s f s') × (run sha256 execute files s'
              ≡ run_all sha256 execute s'.applied 0 ((x.version, x.sql) ∷ x.after) s'))
  unfolding run
  run_failure [] s f s' stopped = inl (refl, ground arith, ground arith)
  run_failure (file ∷ files) s f s' stopped =
      let x = run_all_failed s.applied 0 (file ∷ files) s f s' stopped in
      let recorded =
        run_all_records sha256 execute s.applied 0 x.before s x.n s' (λ k c old. old) x.through in
      inr (
        x,
        ap (λ l. run_all sha256 execute s'.applied 0 l s') x.split
            ∙ run_all_resumes s'.applied x.before ((x.version, x.sql) ∷ x.after) s' 0 recorded,
      )
