-- ===== src/Exec/Keeps.antt =====
-- Predicates on the database that code keeps, inside a session and around one.
use festival_service.Prelude.{◌≡◌, refl, ap, ◌∙◌, Bool, true, false, if◌then◌else◌}
use festival_service.Errors.{Result, ok, err}
use festival_service.Rows.{Database}
use festival_service.Exec.{
  Exec, idle, in_session, query, begin, close_begin, read, lift, continue, ◌>>=◌,
}
use festival_service.Service.Session.{within}

module _ (Holds : Database → Type 0) where
  -- The session's copy of the database keeps the property, whether or not the code raises.
  pub record Keeps {ℓ} {A : Type ℓ} (m : Exec A) : Type ℓ where
    pub at :
        (c s : Database) → Holds s → (s' : Database) × ((m (within c s)).1 ≡ within c s') × Holds s'

  -- So does code that starts with no transaction open, and it leaves none open.
  pub record Stays {ℓ} {A : Type ℓ} (m : Exec A) : Type ℓ where
    pub at : (d : Database) → Holds d → (d' : Database) × ((m (idle d)).1 ≡ idle d') × Holds d'

  module _ {ℓ} {A : Type ℓ} where
    pub Keeps-in_session :
        (body : Database → Result A × Database)
        → ((s : Database) → Holds s → Holds (body s).1)
        → Keeps (in_session body)
    unfolding in_session
    Keeps-in_session body keep = record { at = λ c s h. ((body s).1, refl, keep s h) }

    pub Keeps-query : (f : Database → Result A) → Keeps (query f)
    unfolding query
    Keeps-query f = Keeps-in_session _ (λ s h. h)

    pub Keeps-lift : (r : Result A) → Keeps (lift r)
    Keeps-lift r = record { at = λ c s h. (s, refl, h) }

    pub Keeps-if : (b : Bool) {m n : Exec A} → Keeps m → Keeps n → Keeps (if b then m else n)
    Keeps-if true km kn = km
    Keeps-if false km kn = kn

    pub Stays-if : (b : Bool) {m n : Exec A} → Stays m → Stays n → Stays (if b then m else n)
    Stays-if true km kn = km
    Stays-if false km kn = kn

    pub Stays-lift : (r : Result A) → Stays (lift r)
    Stays-lift r = record { at = λ d h. (d, refl, h) }

    -- What a transaction leaves: the session's copy, or the database that it found.
    close_begin-Holds :
        (r : Result A) (d s : Database)
        → Holds d
        → Holds s
        → (d' : Database) × (close_begin r (within d s) ≡ idle d') × Holds d'
    close_begin-Holds (ok a) d s hd hs = (s, refl, hs)
    close_begin-Holds (err e) d s hd hs = (d, refl, hd)

    pub Stays-begin : (m : Exec A) → Keeps m → Stays (begin m)
    unfolding begin
    Stays-begin m k = record {
      at = λ d h.
          let (s, done, hs) = k.at d d h in
          let (d', closed, h') = close_begin-Holds (m (within d d)).0 d s h hs in
          (d', ap (close_begin (m (within d d)).0) done ∙ closed, h');
    }

    pub Stays-read : (m : Exec A) → Keeps m → Stays (read m)
    unfolding read
    Stays-read m k = record { at = λ d h. let (s, done, hs) = k.at d d h in (d, rw done refl, h) }

  module _ {ℓ κ} {A : Type ℓ} {B : Type κ} (f : A → Exec B) where
    continue-Keeps : ((a : A) → Keeps (f a)) → (r : Result A) → Keeps (continue r f)
    continue-Keeps kf (ok a) = kf a
    continue-Keeps kf (err e) = record { at = λ c s h. (s, refl, h) }

    pub Keeps-bind : (m : Exec A) → Keeps m → ((a : A) → Keeps (f a)) → Keeps (m >>= f)
    Keeps-bind m km kf = record {
      at = λ c s h.
          let (s', p, h') = km.at c s h in
          let (s'', q, h'') = (continue-Keeps kf (m (within c s)).0).at c s' h' in
          (s'', ap (λ w. (continue (m (within c s)).0 f w).1) p ∙ q, h'');
    }

    continue-Stays : ((a : A) → Stays (f a)) → (r : Result A) → Stays (continue r f)
    continue-Stays kf (ok a) = kf a
    continue-Stays kf (err e) = record { at = λ d h. (d, refl, h) }

    pub Stays-bind : (m : Exec A) → Stays m → ((a : A) → Stays (f a)) → Stays (m >>= f)
    Stays-bind m km kf = record {
      at = λ d h.
          let (d', p, h') = km.at d h in
          let (d'', q, h'') = (continue-Stays kf (m (idle d)).0).at d' h' in
          (d'', ap (λ w. (continue (m (idle d)).0 f w).1) p ∙ q, h'');
    }

    -- What follows a value may rely on how it came about.
    pub Keeps-lift_bind : (r : Result A) → ((a : A) → r ≡ ok a → Keeps (f a)) → Keeps (lift r >>= f)
    Keeps-lift_bind (ok a) kf = kf a refl
    Keeps-lift_bind (err e) kf = record { at = λ c s h. (s, refl, h) }
