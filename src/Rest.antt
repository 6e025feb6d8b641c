-- ===== src/Rest.antt =====
-- app/adapters/inbound/rest: the routes that change festivals, each for administrators only. FastAPI
-- reads a request's body before it calls the dependencies of the route, and fits it to the
-- handler's parameters after them; how both end is a parameter.
pub mod Routes
pub mod Guarded
pub mod Browse
pub mod Reads
pub mod Histories
pub mod Enqueues
mod Tests
use festival_service.Prelude.{ℕ, String, Option, List, [], ◌∷◌}
use festival_service.Errors.{Result, ok, err}
use festival_service.Exec.{World, Exec}
use festival_service.Runtime.{Runtime}
use festival_service.Call.{Settings, Call}
use festival_service.Directory.{Lookup}
use festival_service.Dto.{
  CreateFestivalRequest, RescheduleFestivalRequest, AddGameRequest, FestivalDetailView,
}
use festival_service.Service
use festival_service.Auth.{Role, admin, Principal, Decoded, guard}
use festival_service.Http.{FieldError, Failure, raised, not_valid}

-- The body of a request: no JSON, JSON that does not fit the model, or the model.
pub data Body (A : Type 0) : Type 0 where
  malformed unfit : List FieldError → Body A
  fit : A → Body A

-- What a route ends with: a status and a page, or what the handlers of exceptions answer to.
pub data Answer : Type 0 where
  answered : ℕ → FestivalDetailView → Answer
  failed : Failure → Answer

abbrev pub respond : ℕ → Result FestivalDetailView × World → Answer × World
respond status (ok page, w) = (answered status page, w)
respond status (err e, w) = (failed (raised e), w)

-- `dependencies=admin_only`
abbrev pub admin_only : List Role
admin_only = admin ∷ []

-- After the dependencies.
abbrev pub admitted :
    {A : Type 0}
    → ℕ
    → Result Principal
    → Body A
    → (Principal → A → Exec FestivalDetailView)
    → World
    → Answer × World
admitted status (err e) body handler w = (failed (raised e), w)
admitted status (ok caller) (fit request) handler w = respond status (handler caller request w)
admitted status (ok caller) (malformed errors) handler w = (failed (not_valid errors), w)
admitted status (ok caller) (unfit errors) handler w = (failed (not_valid errors), w)

-- How FastAPI runs a route.
abbrev pub run_route :
    {A : Type 0}
    → ℕ
    → Result Principal
    → Body A
    → (Principal → A → Exec FestivalDetailView)
    → World
    → Answer × World
run_route status caller (malformed errors) handler w = (failed (not_valid errors), w)
run_route status caller body handler w = admitted status caller body handler w

-- A route without a body.
abbrev no_body : Body (Unit {0})
no_body = fit tt

module _ (rt : Runtime) (settings : Settings) (verifier : Option (String → Decoded)) where
  -- `Depends(require(Role.ADMIN))`; `caller` is the principal that it let in.
  abbrev pub checked : Option String → Result Principal
  checked token = guard rt verifier token admin_only

  unfoldable pub create_festival :
      Call → Option String → Body CreateFestivalRequest → World → Answer × World
  unfolding guard Service.create
  create_festival call token body =
      run_route 201 (checked token) body
        (λ caller request. Service.create rt settings call caller.user_id request)

  unfoldable pub reschedule_festival :
      Call → Option String → String → Body RescheduleFestivalRequest → World → Answer × World
  unfolding guard Service.reschedule
  reschedule_festival call token festival_id body =
      run_route 200 (checked token) body
        (λ caller request. Service.reschedule rt settings call festival_id caller.user_id request)

  unfoldable pub add_game :
      Call → Option String → String → Body AddGameRequest → World → Answer × World
  unfolding guard Service.add_game
  add_game call token festival_id body =
      run_route 201 (checked token) body
        (λ caller request. Service.add_game rt settings call festival_id caller.user_id request)

  unfoldable pub remove_game : Call → Option String → String → String → World → Answer × World
  unfolding guard Service.remove_game
  remove_game call token festival_id game_id =
      run_route 200 (checked token) no_body
        (λ caller request. Service.remove_game rt settings call festival_id caller.user_id game_id)

  unfoldable pub start_festival :
      Call → Option Lookup → Option String → String → World → Answer × World
  unfolding guard Service.start
  start_festival call users token festival_id =
      run_route 200 (checked token) no_body
        (λ caller request. Service.start rt settings call users festival_id caller.user_id)

  unfoldable pub end_festival : Call → Option String → String → World → Answer × World
  unfolding guard Service.end_festival
  end_festival call token festival_id =
      run_route 200 (checked token) no_body
        (λ caller request. Service.end_festival rt settings call festival_id caller.user_id)

  unfoldable pub cancel_festival : Call → Option String → String → World → Answer × World
  unfolding guard Service.cancel
  cancel_festival call token festival_id =
      run_route 200 (checked token) no_body
        (λ caller request. Service.cancel rt settings call festival_id caller.user_id)
