-- ===== src/Migrate/Runs.antt =====
-- What the runs of app/platform/migrate.py record, and what the next run makes of it.
use festival_service.Prelude.{
  ℕ, ◌+◌, String, ◌==◌, ◌≡◌, refl, sym, ◌∙◌, ap, ◌⊎◌, inl, inr, none, some, List, [], ◌∷◌, All,
  Bool-cases, Option-cases, eq_iff, eq_refl, arith,
}
use festival_service.Errors.{Result, ok, Result-cases}
use festival_service.Dict.{Dict, get, set, contains}
use festival_service.Dict.Laws.{get-set}
use festival_service.Migrate.{Schema, ran, record_version, apply_file, run_all, run}

-- A key that was there is not touched by a new one.
get-set_free :
    (j k v c : String) (d : Dict String)
    → get j d ≡ none
    → get k d ≡ some c
    → get k (set j v d) ≡ some c
get-set_free j k v c d free here = elim (Bool-cases (j == k)) [
  | inl same ↦
      let equal = (eq_iff j k).0 same in
      let missing : get k d ≡ none = rw equal at free in ground arith
  | inr other ↦ get-set k j v d ∙ rw other here
]

module _ {S : Type 0} (sha256 : String → String) (execute : String → S → Result S) where
  -- What the transaction of one file recorded.
  apply_file_records :
      (version sql : String) (s s' : Schema S)
      → apply_file sha256 execute version sql s ≡ ok s'
      → (get version s.applied ≡ none) × (s'.applied ≡ set version (sha256 sql) s.applied)
  unfolding apply_file record_version contains
  apply_file_records version sql s s' done = elim (Result-cases (execute sql s.rest)) [
    | inr (e, raised) ↦ ground arith
    | inl (rest, through) ↦ elim (Option-cases (get version s.applied)) [
      | inl free ↦ (
        free,
        let same : ok (record { applied = set version (sha256 sql) s.applied; rest = rest })
                ≡ ok s' =
              ground arith in
            let made : record { applied = set version (sha256 sql) s.applied; rest = rest } ≡ s' =
              cc in
            sym (ap (λ (x : Schema S). x.applied) made),
      )
      | inr (c, taken) ↦ ground arith
    ]
  ]

  -- The first round of a run that succeeds: the file was applied, as it is, or it is applied now.
  run_all_round :
      (applied : Dict String) (count : ℕ) (version sql : String) (files : List (String × String))
      (s : Schema S) (n : ℕ) (s' : Schema S)
      → run_all sha256 execute applied count ((version, sql) ∷ files) s ≡ ran n s'
      → ((get version applied ≡ some (sha256 sql))
          × (run_all sha256 execute applied count files s ≡ ran n s'))
        ⊎ ((get version applied ≡ none)
            × (mid : Schema S) × (apply_file sha256 execute version sql s ≡ ok mid)
            × (run_all sha256 execute applied (count + 1) files mid ≡ ran n s'))
  unfolding run_all
  run_all_round applied count version sql files s n s' done =
      elim (Option-cases (get version applied)) [
        | inr (checksum, old) ↦ elim (Bool-cases (checksum == sha256 sql)) [
          | inl same ↦
              let equal = (eq_iff checksum (sha256 sql)).0 same in
              inl (rw equal at old, rw (run_all, old, same) at done)
          | inr edited ↦ ground arith
        ]
        | inl new ↦ elim (Result-cases (apply_file sha256 execute version sql s)) [
          | inr (e, raised) ↦ ground arith
          | inl (mid, through) ↦ inr (new, mid, through, rw (run_all, new, through) at done)
        ]
      ]

  run_all_keeps :
      (applied : Dict String) (count : ℕ) (files : List (String × String)) (s : Schema S) (n : ℕ)
      (s' : Schema S) (k c : String)
      → run_all sha256 execute applied count files s ≡ ran n s'
      → get k s.applied ≡ some c
      → get k s'.applied ≡ some c
  unfolding run_all
  run_all_keeps applied count [] s n s' k c done here = let same : s ≡ s' = cc in rw same at here
  run_all_keeps applied count ((version, sql) ∷ files) s n s' k c done here =
      elim (run_all_round applied count version sql files s n s' done) [
        | inl (old, later) ↦ run_all_keeps applied count files s n s' k c later here
        | inr (new, mid, through, later) ↦
            let (free, stored) = apply_file_records version sql s mid through in
            run_all_keeps applied (count + 1) files mid n s' k c later
              (rw stored (get-set_free version k (sha256 sql) c s.applied free here))
      ]

  pub run_all_records :
      (applied : Dict String) (count : ℕ) (files : List (String × String)) (s : Schema S) (n : ℕ)
      (s' : Schema S)
      → ((k c : String) → get k applied ≡ some c → get k s.applied ≡ some c)
      → run_all sha256 execute applied count files s ≡ ran n s'
      → All (λ (file : String × String). get file.0 s'.applied ≡ some (sha256 file.1)) files
  run_all_records applied count [] s n s' within done = tt
  run_all_records applied count ((version, sql) ∷ files) s n s' within done =
      elim (run_all_round applied count version sql files s n s' done) [
        | inl (old, later) ↦ (
          run_all_keeps applied count files s n s' version _ later (within version _ old),
          run_all_records applied count files s n s' within later,
        )
        | inr (new, mid, through, later) ↦
            let (free, stored) = apply_file_records version sql s mid through in
            (
              run_all_keeps applied (count + 1) files mid n s' version _ later
                  (rw stored (get-set version version (sha256 sql) s.applied ∙ rw eq_refl refl)),
              run_all_records applied (count + 1) files mid n s'
                  (λ k c old.
                    rw stored
                      (get-set_free version k (sha256 sql) c s.applied free (within k c old)))
                  later,
            )
      ]

  pub run_all_nothing :
      (applied : Dict String) (files : List (String × String)) (s : Schema S) (count : ℕ)
      → All (λ (file : String × String). get file.0 applied ≡ some (sha256 file.1)) files
      → run_all sha256 execute applied count files s ≡ ran count s
  unfolding run_all
  run_all_nothing applied [] s count all = refl
  run_all_nothing applied ((version, sql) ∷ files) s count (here, rest) =
      let later = run_all_nothing applied files s count rest in rw (run_all, here, eq_refl) later

  -- After a run that succeeds, every file is recorded under its checksum, what was recorded before
  -- still is, and a second run over the same files applies none of them and changes nothing.
  pub run_again :
      (files : List (String × String)) (s : Schema S) (n : ℕ) (s' : Schema S)
      → run sha256 execute files s ≡ ran n s'
      → All (λ (file : String × String). get file.0 s'.applied ≡ some (sha256 file.1)) files
        × ((k c : String) → get k s.applied ≡ some c → get k s'.applied ≡ some c)
        × (run sha256 execute files s' ≡ ran 0 s')
  unfolding run
  run_again [] s n s' done = ground arith
  run_again (file ∷ files) s n s' done =
      let recorded = run_all_records s.applied 0 (file ∷ files) s n s' (λ k c old. old) done in
      (
        recorded,
        λ k c old. run_all_keeps s.applied 0 (file ∷ files) s n s' k c done old,
        run_all_nothing s'.applied (file ∷ files) s' 0 recorded,
      )
