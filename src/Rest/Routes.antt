-- ===== src/Rest/Routes.antt =====
-- How a guarded route of app/adapters/inbound/rest ends, from how its use case does.
use festival_service.Prelude.{
  ℕ, ◌≤◌, String, ◌≡◌, refl, ◌⊎◌, inl, inr, Option, none, some, List, arith,
}
use festival_service.Errors.{Exception, ok, err, Result-cases}
use festival_service.Exec.{Exec, idle}
use festival_service.Runtime.{Runtime}
use festival_service.Rows.{Database}
use festival_service.Dto.{FestivalDetailView}
use festival_service.Service.Session.{DatabaseIsValid}
use festival_service.Auth.{admin, Principal, Decoded, guard, in_roles}
use festival_service.Auth.Access.{Authenticated, Allowed, guard_iff}
use festival_service.Http.{FieldError, Failure, raised, not_valid, handle}
use festival_service.Http.Problems.{handle-raised-status, handle-not_valid-status}
use festival_service.Rest.{Body, malformed, unfit, fit, answered, failed, run_route, admin_only}

-- A use case that either raises and leaves the database alone, or answers and leaves a valid one.
unfoldable pub Settles : Runtime → Database → Exec FestivalDetailView → Type 0
Settles rt d m =
    ((e : Exception) × (m (idle d) ≡ (err e, idle d)))
    ⊎ ((page : FestivalDetailView) × (d' : Database) × (m (idle d) ≡ (ok page, idle d'))
        × DatabaseIsValid rt d')

-- The model in a body that fits.
unfoldable pub fitted : {A : Type 0} → Body A → Option A
fitted (malformed errors) = none
fitted (unfit errors) = none
fitted (fit a) = some a

module _ (rt : Runtime) (verifier : Option (String → Decoded)) (d : Database) where
  -- A request that gets through the guard, the body and the handler.
  pub record Through {A : Type 0} (token : Option String) (status : ℕ) (body : Body A)
      (handler : Principal → A → Exec FestivalDetailView) : Type 0 where
    pub caller : Principal
    pub request : A
    pub known : Authenticated rt verifier token caller
    pub is_admin : caller.role ≡ admin
    pub fits : fitted body ≡ some request
    pub page : FestivalDetailView
    pub d' : Database
    pub done : handler caller request (idle d) ≡ (ok page, idle d')
    pub result :
        run_route status (guard rt verifier token admin_only) body handler (idle d)
        ≡ (answered status page, idle d')
    pub valid : DatabaseIsValid rt d'

  -- Why a route answers with a failure.
  pub data Unserved {A : Type 0} (token : Option String) (body : Body A)
      (handler : Principal → A → Exec FestivalDetailView) (f : Failure) : Type 0 where
    unauthorised :
        (e : Exception)
        → guard rt verifier token admin_only ≡ err e
        → f ≡ raised e
        → Unserved token body handler f
    unreadable :
        (errors : List FieldError)
        → fitted body ≡ none
        → f ≡ not_valid errors
        → Unserved token body handler f
    refused :
        (p : Principal) (a : A) (e : Exception)
        → guard rt verifier token admin_only ≡ ok p
        → fitted body ≡ some a
        → handler p a (idle d) ≡ (err e, idle d)
        → f ≡ raised e
        → Unserved token body handler f

  Allowed-admin : (p : Principal) → Allowed admin_only p → p.role ≡ admin
  unfolding in_roles
  Allowed-admin p allowed = elim allowed [ inl empty ↦ ground arith | inr member ↦ ground arith ]

  pub route_outcome :
      {A : Type 0} (token : Option String) (status : ℕ) (body : Body A)
      (handler : Principal → A → Exec FestivalDetailView)
      → ((p : Principal) (a : A) → Settles rt d (handler p a))
      → ((f : Failure) × (run_route status
              (guard rt verifier token admin_only)
              body
              handler
              (idle d)
            ≡ (failed f, idle d))
          × ((correlation : String) → 400 ≤ (handle correlation f).status)
          × Unserved token body handler f)
        ⊎ Through token status body handler
  unfolding Settles fitted
  route_outcome token status (malformed errors) handler settles =
      inl
        (not_valid errors, refl, λ c. handle-not_valid-status c errors, unreadable errors refl refl)
  route_outcome token status (unfit errors) handler settles =
      elim (Result-cases (guard rt verifier token admin_only)) [
        | inr (e, stopped) ↦
            inl (
              raised e,
              rw stopped refl,
              λ c. handle-raised-status c e,
              unauthorised e stopped refl,
            )
        | inl (p, let_in) ↦ inl (
          not_valid errors,
          rw let_in refl,
          λ c. handle-not_valid-status c errors,
          unreadable errors refl refl,
        )
      ]
  route_outcome token status (fit request) handler settles =
      elim (Result-cases (guard rt verifier token admin_only)) [
        | inr (e, stopped) ↦
            inl (
              raised e,
              rw stopped refl,
              λ c. handle-raised-status c e,
              unauthorised e stopped refl,
            )
        | inl (p, let_in) ↦ elim (settles p request) [
          | inl (e, stopped) ↦ inl (
            raised e,
            rw (let_in, stopped) refl,
            λ c. handle-raised-status c e,
            refused p request e let_in refl stopped refl,
          )
          | inr (page, d', done, valid') ↦
              let admitted_as = (guard_iff rt verifier token admin_only p).0 let_in in
              inr (record {
                caller = p;
                request = request;
                known = admitted_as.0;
                is_admin = Allowed-admin p admitted_as.1;
                fits = refl;
                page = page;
                d' = d';
                done = done;
                result = rw (let_in, done) refl;
                valid = valid';
              })
        ]
      ]
