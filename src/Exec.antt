-- ===== src/Exec.antt =====
-- Code that runs against the database and may raise: app/platform/db.py. A `World` is the committed
-- database and the session that `session_var` holds, if one is active; a session has its own copy,
-- which becomes the committed one when its transaction commits.
mod Tests
pub mod UnitOfWork
pub mod Keeps
use festival_service.Prelude.{Option, none, some}
use festival_service.Errors.{Exception, Result, ok, err, internal}
use festival_service.Rows.{Database}

pub record World : Type 0 where
  pub committed : Database
  pub session : Option Database

-- No transaction is in progress.
abbrev pub idle : Database → World
idle d = record { committed = d; session = none }

abbrev pub Exec {ℓ} : Type ℓ → Type ℓ
Exec A = World → Result A × World

module _ {ℓ} {A : Type ℓ} where
  abbrev pub pure : A → Exec A
  pure a w = (ok a, w)

  abbrev pub raise : Exception → Exec A
  raise e w = (err e, w)

  abbrev pub lift : Result A → Exec A
  lift r w = (r, w)

-- What follows a step: nothing, if it raised.
abbrev pub continue {ℓ κ} :
    {A : Type ℓ} {B : Type κ} → Result A → (A → Exec B) → World → Result B × World
continue (ok a) f w = f a w
continue (err e) f w = (err e, w)

infixl 5 ◌>>=◌ ◌>>◌
abbrev pub ◌>>=◌ {ℓ κ} : {A : Type ℓ} {B : Type κ} → Exec A → (A → Exec B) → Exec B
◌>>=◌ m f w = let (r, w') = m w in continue r f w'

abbrev pub ◌>>◌ {ℓ} : {B : Type ℓ} → Exec (Unit {0}) → Exec B → Exec B
m >> k = m >>= λ _. k

abbrev pub no_session : Exception
no_session =
    internal "no database session is active; repository calls must happen inside uow.begin()"

-- `current_session()`, followed by statements on the session's copy.
unfoldable pub in_session {ℓ} : {A : Type ℓ} → (Database → Result A × Database) → Exec A
in_session body w = elim w.session [
  | none ↦ (err no_session, w)
  | some d ↦ let (r, d') = body d in (r, record w { session = some d' })
]

-- A statement that only reads.
unfoldable pub query {ℓ} : {A : Type ℓ} → (Database → Result A) → Exec A
unfolding in_session
query f = in_session (λ d. (f d, d))

-- The end of the outer transaction: a clean exit commits the session's copy, an exception drops it.
abbrev pub close_begin {ℓ} : {A : Type ℓ} → Result A → World → World
close_begin (ok a) w = elim w.session [
  | none ↦ w
  | some d ↦ record { committed = d; session = none }
]
close_begin (err e) w = record w { session = none }

-- `UnitOfWork.begin()` around a block: nested in an open session it runs in that one.
unfoldable pub begin {ℓ} : {A : Type ℓ} → Exec A → Exec A
begin m w = elim w.session [
  | some d ↦ m w
  | none ↦ let (r, w') = m (record w { session = some w.committed }) in (r, close_begin r w')
]

-- `UnitOfWork.read()`: the outer session's copy is dropped at the end, whatever happened.
unfoldable pub read {ℓ} : {A : Type ℓ} → Exec A → Exec A
read m w = elim w.session [
  | some d ↦ m w
  | none ↦
      let (r, w') = m (record w { session = some w.committed }) in (r, record w' { session = none })
]
