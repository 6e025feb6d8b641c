-- ===== src/Rest/Guarded.antt =====
-- The routes of app/adapters/inbound/rest/festivals.py that change festivals, behind their guard.
use festival_service.Prelude.{
  ℕ, ◌≤◌, String, ◌≡◌, refl, ◌∙◌, ◌⊎◌, inl, inr, Option, none, some, List, [],
}
use mathlib.Core.Option
use festival_service.Errors.{Exception, ok, err}
use festival_service.Exec.{World, Exec, idle}
use festival_service.Runtime.{Runtime}
use festival_service.Call.{Settings, Call}
use festival_service.Directory.{Lookup}
use festival_service.Rows.{Database}
use festival_service.Dto.{
  CreateFestivalRequest, RescheduleFestivalRequest, AddGameRequest, FestivalDetailView,
}
use festival_service.Service
use festival_service.Service.Session.{DatabaseIsValid}
use festival_service.Service.Actions.{Action, perform}
use festival_service.Service.Refinement.{perform_refines}
use festival_service.Service.Creation.{create_refines}
use festival_service.Auth.{admin, Principal, Decoded, guard}
use festival_service.Auth.Access.{Authenticated}
use festival_service.Http.{FieldError, Failure, raised, not_valid, handle}
use festival_service.Rest
use festival_service.Rest.Routes.{Settles, Unserved, fitted, route_outcome}
use festival_service.Rest.{
  Body, malformed, unfit, fit, Answer, answered, failed, respond, run_route, admin_only, checked,
}

-- A request to a route that changes a festival.
pub data Write : Type 0 where
  create : Body CreateFestivalRequest → Write
  reschedule : String → Body RescheduleFestivalRequest → Write
  add_game : String → Body AddGameRequest → Write
  remove_game : String → String → Write
  start : Option Lookup → String → Write
  end_festival cancel : String → Write

-- The status of a request that is carried out.
abbrev pub success : Write → ℕ
success (create body) = 201
success (add_game festival_id body) = 201
success _ = 200

module _ (rt : Runtime) (settings : Settings) (verifier : Option (String → Decoded))
    (call : Call) where
  -- The routing table.
  unfoldable pub serve : Option String → Write → World → Answer × World
  unfolding Rest.create_festival Rest.reschedule_festival Rest.add_game Rest.remove_game
      Rest.start_festival Rest.end_festival Rest.cancel_festival
  serve token (create body) = Rest.create_festival rt settings verifier call token body
  serve token (reschedule festival_id body) =
      Rest.reschedule_festival rt settings verifier call token festival_id body
  serve token (add_game festival_id body) =
      Rest.add_game rt settings verifier call token festival_id body
  serve token (remove_game festival_id game_id) =
      Rest.remove_game rt settings verifier call token festival_id game_id
  serve token (start users festival_id) =
      Rest.start_festival rt settings verifier call users token festival_id
  serve token (end_festival festival_id) =
      Rest.end_festival rt settings verifier call token festival_id
  serve token (cancel festival_id) =
      Rest.cancel_festival rt settings verifier call token festival_id

  -- The use case that the request asks for, if its body fits, on behalf of an administrator.
  unfoldable pub asked : Write → String → Option (Exec FestivalDetailView)
  unfolding Service.create perform fitted
  asked (create body) admin_id = Option.map (Service.create rt settings call admin_id) (fitted body)
  asked (reschedule festival_id body) admin_id =
      Option.map
        (λ request. perform rt settings call festival_id admin_id (Action.reschedule request))
        (fitted body)
  asked (add_game festival_id body) admin_id =
      Option.map
        (λ request. perform rt settings call festival_id admin_id (Action.add_game request))
        (fitted body)
  asked (remove_game festival_id game_id) admin_id =
      some (perform rt settings call festival_id admin_id (Action.remove_game game_id))
  asked (start users festival_id) admin_id =
      some (perform rt settings call festival_id admin_id (Action.start users))
  asked (end_festival festival_id) admin_id =
      some (perform rt settings call festival_id admin_id Action.end_festival)
  asked (cancel festival_id) admin_id =
      some (perform rt settings call festival_id admin_id Action.cancel)

  -- A request that changed the database.
  pub record Granted (token : Option String) (d : Database) (write : Write) : Type 0 where
    pub caller : Principal
    pub known : Authenticated rt verifier token caller
    pub is_admin : caller.role ≡ admin
    pub use_case : Exec FestivalDetailView
    pub meant : asked write caller.user_id ≡ some use_case
    pub page : FestivalDetailView
    pub d' : Database
    pub done : use_case (idle d) ≡ (ok page, idle d')
    pub result : serve token write (idle d) ≡ (answered (success write) page, idle d')
    pub valid : DatabaseIsValid rt d'

  -- Why such a request is answered with a failure: the guard or the body, or the use case raises.
  pub data Why (token : Option String) (d : Database) (write : Write) (f : Failure) : Type 0 where
    unauthorised :
        (e : Exception)
        → guard rt verifier token admin_only ≡ err e
        → f ≡ raised e
        → Why token d write f
    unreadable :
        (errors : List FieldError)
        → ((admin_id : String) → asked write admin_id ≡ none)
        → f ≡ not_valid errors
        → Why token d write f
    refused :
        (p : Principal) (use_case : Exec FestivalDetailView) (e : Exception)
        → guard rt verifier token admin_only ≡ ok p
        → asked write p.user_id ≡ some use_case
        → use_case (idle d) ≡ (err e, idle d)
        → f ≡ raised e
        → Why token d write f

  abbrev pub Rejected : Option String → Database → Write → Type 0
  Rejected token d write =
      (f : Failure) × (serve token write (idle d) ≡ (failed f, idle d))
      × ((correlation : String) → 400 ≤ (handle correlation f).status)
      × Why token d write f

  module _ (d : Database) (valid : DatabaseIsValid rt d) where
    perform-Settles :
        (festival_id admin_id : String) (a : Action)
        → Settles rt d (perform rt settings call festival_id admin_id a)
    unfolding Settles
    perform-Settles festival_id admin_id a =
        elim (perform_refines rt settings call festival_id admin_id d valid a) [
          | inl (e, stopped, why) ↦ inl (e, stopped)
          | inr done ↦ inr (_, done.d', done.result, done.valid)
        ]

    create-Settles :
        (admin_id : String) (request : CreateFestivalRequest)
        → Settles rt d (Service.create rt settings call admin_id request)
    unfolding Settles
    create-Settles admin_id request =
        elim (create_refines rt settings call admin_id d request valid) [
          | inl (e, stopped, why) ↦ inl (e, stopped)
          | inr done ↦ inr (_, _, done.result, done.valid)
        ]

    -- A write that is this route.
    by_route :
        {A : Type 0} (token : Option String) (write : Write) (body : Body A)
        (handler : Principal → A → Exec FestivalDetailView)
        → serve token write (idle d)
          ≡ run_route (success write) (guard rt verifier token admin_only) body handler (idle d)
        → ((p : Principal) → asked write p.user_id ≡ Option.map (handler p) (fitted body))
        → ((p : Principal) (a : A) → Settles rt d (handler p a))
        → Rejected token d write ⊎ Granted token d write
    by_route token write body handler same meant settles =
        elim (route_outcome rt verifier d token (success write) body handler settles) [
          | inl (f, stopped, bad, why) ↦ inl (f, same ∙ stopped, bad, because f why)
          | inr t ↦ inr (record {
            caller = t.caller;
            known = t.known;
            is_admin = t.is_admin;
            use_case = handler t.caller t.request;
            meant = meant t.caller ∙ rw t.fits refl;
            page = t.page;
            d' = t.d';
            done = t.done;
            result = same ∙ t.result;
            valid = t.valid;
          })
        ]
      where
        because : (f : Failure) → Unserved rt verifier d token body handler f → Why token d write f
        because f (Unserved.unauthorised e stopped is) = unauthorised e stopped is
        because f (Unserved.unreadable errors absent is) =
            unreadable errors
              (λ admin_id.
                meant (record { user_id = admin_id; role = admin; email = ""; scopes = [] })
                ∙ rw absent refl)
              is
        because f (Unserved.refused p a e let_in fits stopped is) =
            refused p (handler p a) e let_in (meant p ∙ rw fits refl) stopped is

    -- On a valid database a request to a route that changes festivals is either answered with a
    -- failure, of a status of at least 400, and leaves the database exactly as it was: since the
    -- guard stops it, since its body does not fit, or since the use case raises. Or its credentials
    -- are genuine and name an administrator, its body fits, and it does what the use case does that
    -- it asks for on behalf of that administrator, which succeeds and leaves a valid database; it is
    -- then answered with the page, and with 201 if it creates a festival or adds a game, else 200.
    pub serve_guarded :
        (token : Option String) (write : Write) → Rejected token d write ⊎ Granted token d write
    unfolding serve asked perform fitted
    serve_guarded token (create body) =
        by_route token (create body) body _ refl (λ p. refl) (λ p a. create-Settles p.user_id a)
    serve_guarded token (reschedule festival_id body) =
        by_route token (reschedule festival_id body) body _ refl (λ p. refl)
          (λ p a. perform-Settles festival_id p.user_id (Action.reschedule a))
    serve_guarded token (add_game festival_id body) =
        by_route token (add_game festival_id body) body _ refl (λ p. refl)
          (λ p a. perform-Settles festival_id p.user_id (Action.add_game a))
    serve_guarded token (remove_game festival_id game_id) =
        by_route token (remove_game festival_id game_id) (fit tt) _ refl (λ p. refl)
          (λ p a. perform-Settles festival_id p.user_id (Action.remove_game game_id))
    serve_guarded token (start users festival_id) =
        by_route token (start users festival_id) (fit tt) _ refl (λ p. refl)
          (λ p a. perform-Settles festival_id p.user_id (Action.start users))
    serve_guarded token (end_festival festival_id) =
        by_route token (end_festival festival_id) (fit tt) _ refl (λ p. refl)
          (λ p a. perform-Settles festival_id p.user_id Action.end_festival)
    serve_guarded token (cancel festival_id) =
        by_route token (cancel festival_id) (fit tt) _ refl (λ p. refl)
          (λ p a. perform-Settles festival_id p.user_id Action.cancel)
