-- ===== src/Migrate/Replicas/Fair.antt =====
-- The invariant of the replicas of app/platform/migrate.py, and the steps of the one behind the lock.
use festival_service.Prelude.{
  ℕ, ◌+◌, String, true, false, Bool, not, ◌==◌, ◌≡◌, refl, ◌⊎◌, inl, inr, none, some, Option, List,
  [], ◌∷◌, Bool-cases, Option-cases, nat_eq, arith, subst,
}
use festival_service.Errors.{Result, Result-cases}
use festival_service.Dict.{Dict, get}
use festival_service.Migrate.{Schema, Outcome, ran, failed, changed, broken, apply_file, run_all}
use festival_service.Migrate.Replicas.{
  Phase, waiting, locked, applying, finished, Race, put, acquire, schema_of, finish, advance,
}

-- A replica that is not behind the lock.
abbrev pub is_outside : Phase → Bool
is_outside waiting = true
is_outside locked = false
is_outside (applying applied count files) = false
is_outside finished = true

pub put_same : (i : ℕ) (phase : Phase) (phases : ℕ → Phase) → put i phase phases i ≡ phase
unfolding put
put_same i phase phases = ground arith

put_this :
    (i j : ℕ) (phase : Phase) (phases : ℕ → Phase)
    → nat_eq i j ≡ true
    → put i phase phases j ≡ phase
unfolding put
put_this i j phase phases this = rw this refl

put_other :
    (i j : ℕ) (phase : Phase) (phases : ℕ → Phase)
    → nat_eq i j ≡ false
    → put i phase phases j ≡ phases j
unfolding put
put_other i j phase phases other = rw other refl

module _ {S : Type 0} (sha256 : String → String) (execute : String → S → Result S)
    (files : List (String × String)) where
  -- The whole of a run, from the database that it finds.
  abbrev pub whole : Schema S → Outcome S
  whole schema = run_all sha256 execute schema.applied 0 files schema

  -- The runs that ended, the last one first, each found the database as the one before it left it.
  unfoldable pub Serial : Schema S → List (Outcome S) → Schema S → Type 0
  Serial first [] last = first ≡ last
  Serial first (outcome ∷ earlier) last =
      (found : Schema S) × Serial first earlier found
      × (whole found ≡ outcome)
      × (schema_of outcome ≡ last)

  -- Where the replica behind the lock is, when it found the database `entry`.
  unfoldable pub Inside : Schema S → Schema S → Phase → Type 0
  Inside entry schema waiting = ⊥
  Inside entry schema locked = entry ≡ schema
  Inside entry schema (applying applied count rest) =
      whole entry ≡ run_all sha256 execute applied count rest schema
  Inside entry schema finished = ⊥

  pub record Free (entry : Schema S) (r : Race S) : Type 0 where
    pub holder : r.holder ≡ none
    pub same : entry ≡ r.schema
    pub others : (j : ℕ) → is_outside (r.phases j) ≡ true

  pub record Taken (entry : Schema S) (r : Race S) (i : ℕ) : Type 0 where
    pub holder : r.holder ≡ some i
    pub inside : Inside entry r.schema (r.phases i)
    pub others : (j : ℕ) → nat_eq i j ≡ false → is_outside (r.phases j) ≡ true

  pub record IsFair (first : Schema S) (r : Race S) : Type 0 where
    pub entry : Schema S
    pub history : Serial first r.outcomes entry
    pub now : Free entry r ⊎ ((i : ℕ) × Taken entry r i)

  -- The lock is taken, or the replica behind it goes on.
  pub enter-IsFair :
      {first : Schema S} (i : ℕ) (phase : Phase) (schema : Schema S) (holder : Option ℕ)
      (r : Race S) (entry : Schema S)
      → Serial first r.outcomes entry
      → holder ≡ some i
      → Inside entry schema phase
      → ((j : ℕ) → nat_eq i j ≡ false → is_outside (r.phases j) ≡ true)
      → IsFair first (record r { schema = schema; holder = holder; phases = put i phase r.phases })
  enter-IsFair i phase schema holder r entry history held inside others = record {
    entry = entry;
    history = history;
    now = inr (
      i,
      record {
        holder = held;
        inside = rw (put_same i phase r.phases) inside;
        others = λ j other. rw (put_other i j phase r.phases other) (others j other);
      },
    );
  }

  finish-IsFair :
      {first : Schema S} (i : ℕ) (outcome : Outcome S) (r : Race S) (entry : Schema S)
      → Serial first r.outcomes entry
      → whole entry ≡ outcome
      → ((j : ℕ) → nat_eq i j ≡ false → is_outside (r.phases j) ≡ true)
      → IsFair first (finish i outcome r)
  unfolding finish Serial
  finish-IsFair i outcome r entry history done others = record {
    entry = schema_of outcome;
    history = (entry, history, done, refl);
    now = inl (record {
      holder = refl;
      same = refl;
      others = λ j. elim (Bool-cases (nat_eq i j)) [
        | inl this ↦ rw (put_this i j finished r.phases this) refl
        | inr other ↦ rw (put_other i j finished r.phases other) (others j other)
      ];
    });
  }

  -- A replica behind the lock holds it.
  pub record Behind (first : Schema S) (i : ℕ) (phase : Phase) (r : Race S) : Type 0 where
    pub entry : Schema S
    pub history : Serial first r.outcomes entry
    pub holder : r.holder ≡ some i
    pub inside : Inside entry r.schema phase
    pub others : (j : ℕ) → nat_eq i j ≡ false → is_outside (r.phases j) ≡ true

  pub behind :
      {first : Schema S} (i : ℕ) (phase : Phase) (r : Race S)
      → r.phases i ≡ phase
      → is_outside phase ≡ false
      → IsFair first r
      → Behind first i phase r
  behind i phase r at_phase inside fair = elim fair.now [
    | inl free ↦ let out = free.others i in absurd (ground arith)
    | inr (k, taken) ↦ elim (Bool-cases (nat_eq k i)) [
      | inl this ↦
          let same : k ≡ i = ground arith in
          let mine = subst (Taken fair.entry r) same taken in
          record {
            entry = fair.entry;
            history = fair.history;
            holder = mine.holder;
            inside = subst (Inside fair.entry r.schema) at_phase mine.inside;
            others = mine.others;
          }
      | inr other ↦ let out = taken.others i other in absurd (ground arith)
    ]
  ]

  pub acquire-IsFair :
      {first : Schema S} (i : ℕ) (holder : Option ℕ) (r : Race S)
      → r.holder ≡ holder
      → IsFair first r
      → IsFair first (acquire i holder r)
  unfolding acquire Inside
  acquire-IsFair i (some other) r held fair = fair
  acquire-IsFair i none r held fair = elim fair.now [
    | inl free ↦
        enter-IsFair i locked r.schema (some i) r fair.entry fair.history refl free.same
          (λ j other. free.others j)
    | inr (k, taken) ↦ let own = taken.holder in absurd (ground arith)
  ]

  pub apply-IsFair :
      {first : Schema S} (i : ℕ) (applied : Dict String) (count : ℕ) (rest : List (String × String))
      (r : Race S)
      → Behind first i (applying applied count rest) r
      → IsFair first (advance sha256 execute files i (applying applied count rest) r)
  unfolding advance run_all Inside
  apply-IsFair i applied count [] r b =
      finish-IsFair i (ran count r.schema) r b.entry b.history b.inside b.others
  apply-IsFair i applied count ((version, sql) ∷ rest) r b =
      elim (Option-cases (get version applied)) [
        | inr (checksum, old) ↦ elim (Bool-cases (not (checksum == sha256 sql))) [
          | inl edited ↦
              rw (advance, old, edited)
                (finish-IsFair i (failed (changed version) r.schema) r b.entry b.history
                  (rw (run_all, old, edited) at b.inside) b.others)
          | inr same ↦
              rw (advance, old, same)
                (enter-IsFair i (applying applied count rest) r.schema r.holder r b.entry b.history
                  b.holder (rw (run_all, old, same) at b.inside) b.others)
        ]
        | inl new ↦ elim (Result-cases (apply_file sha256 execute version sql r.schema)) [
          | inr (e, raised) ↦
              rw (advance, new, raised)
                (finish-IsFair i (failed (broken e) r.schema) r b.entry b.history
                  (rw (run_all, new, raised) at b.inside) b.others)
          | inl (schema, through) ↦
              rw (advance, new, through)
                (enter-IsFair i (applying applied (count + 1) rest) schema r.holder r b.entry
                  b.history b.holder (rw (run_all, new, through) at b.inside) b.others)
        ]
      ]
