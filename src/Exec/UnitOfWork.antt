-- ===== src/Exec/UnitOfWork.antt =====
-- The guarantees of `UnitOfWork` in app/platform/db.py.
use festival_service.Prelude.{◌≡◌, refl, some}
use festival_service.Errors.{Exception, Result, ok, err}
use festival_service.Rows.{Database}
use festival_service.Exec.{World, Exec, idle, in_session, begin, read, lift, continue, ◌>>=◌}

-- `m` runs in the session it finds: it leaves the committed database alone and the session open.
pub record InSession {ℓ} {A : Type ℓ} (m : Exec A) : Type ℓ where
  pub at :
      (c s : Database)
      → (s' : Database) × ((m (record { committed = c; session = some s })).1
          ≡ record { committed = c; session = some s' })

module _ {ℓ} {A : Type ℓ} where
  pub InSession-in_session : (body : Database → Result A × Database) → InSession (in_session body)
  unfolding in_session
  InSession-in_session body = record { at = λ c s. ((body s).1, refl) }

  pub InSession-lift : (r : Result A) → InSession (lift r)
  InSession-lift r = record { at = λ c s. (s, refl) }

module _ {ℓ κ} {A : Type ℓ} {B : Type κ} where
  continue-InSession :
      (f : A → Exec B) → ((a : A) → InSession (f a)) → (r : Result A) → InSession (continue r f)
  continue-InSession f kf (ok a) = kf a
  continue-InSession f kf (err e) = record { at = λ c s. (s, refl) }

  pub InSession-bind :
      (m : Exec A) (f : A → Exec B)
      → InSession m
      → ((a : A) → InSession (f a))
      → InSession (m >>= f)
  InSession-bind m f km kf = record {
    at = λ c s.
        let w : World = record { committed = c; session = some s } in
        let (s', p) = km.at c s in
        let (s'', q) = (continue-InSession f kf (m w).0).at c s' in (s'', rw p q);
  }

pub ruleset session_rules = (InSession-in_session, InSession-lift, InSession-bind)

-- A block that raises rolls back: the world is as it was before it.
pub begin_rollback {ℓ} :
    {A : Type ℓ} (m : Exec A) (d : Database) {e : Exception}
    → InSession m
    → (begin m (idle d)).0 ≡ err e
    → (begin m (idle d)).1 ≡ idle d
unfolding begin
begin_rollback m d k h = let (s, p) = k.at d d in rw (h, p)

-- A block that succeeds commits exactly the session's copy at its end.
pub begin_commit {ℓ} :
    {A : Type ℓ} (m : Exec A) (d : Database) {a : A} {s : Database}
    → m (record { committed = d; session = some d })
      ≡ (ok a, record { committed = d; session = some s })
    → begin m (idle d) ≡ (ok a, idle s)
unfolding begin
begin_commit m d h = rw h

-- A block in `read` never changes the committed database.
read_discards {ℓ} :
    {A : Type ℓ} (m : Exec A) (d : Database) → InSession m → (read m (idle d)).1 ≡ idle d
unfolding read
read_discards m d k = let (s, p) = k.at d d in rw p
