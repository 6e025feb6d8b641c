-- ===== src/Rest/Enqueues.antt =====
-- The routes of app/adapters/inbound/rest/festivals.py that change festivals, and the outbox.
use festival_service.Prelude.{ℕ, String, ◌≡◌, refl, Option, List}
use festival_service.Errors.{Result, ok, err}
use festival_service.Exec.{World, Exec, idle}
use festival_service.Exec.Keeps.{Stays}
use festival_service.Rows.{Database, OutboxMessage}
use festival_service.Runtime.{Runtime}
use festival_service.Call.{Settings, Call}
use festival_service.Dto.{FestivalDetailView}
use festival_service.Auth.{Principal, Decoded}
use festival_service.Outbox.History.{OutboxKept}
use festival_service.Service.Enqueues.UseCases.{
  create-Stays, reschedule-Stays, add_game-Stays, remove_game-Stays, start-Stays,
  end_festival-Stays, cancel-Stays,
}
use festival_service.Rest
use festival_service.Rest.{Body, malformed, unfit, fit, Answer, respond, run_route, checked}
use festival_service.Rest.Guarded.{
  Write, serve, create, reschedule, add_game, remove_game, start, end_festival, cancel,
}

module _ (before : List OutboxMessage) (d : Database) (kept : OutboxKept before d) where
  -- A database that has kept the outbox, with no transaction open.
  abbrev Left : World → Type 0
  Left w = (d' : Database) × (w ≡ idle d') × OutboxKept before d'

  respond-Left :
      (status : ℕ) (x : Result FestivalDetailView × World) → Left x.1 → Left (respond status x).1
  respond-Left status (ok page, w) left = left
  respond-Left status (err e, w) left = left

  run_route-Left :
      {A : Type 0} (status : ℕ) (caller : Result Principal) (body : Body A)
      (handler : Principal → A → Exec FestivalDetailView)
      → ((p : Principal) (request : A) → Stays (OutboxKept before) (handler p request))
      → Left (run_route status caller body handler (idle d)).1
  run_route-Left status caller (malformed errors) handler k = (d, refl, kept)
  run_route-Left status (ok p) (unfit errors) handler k = (d, refl, kept)
  run_route-Left status (err e) (unfit errors) handler k = (d, refl, kept)
  run_route-Left status (err e) (fit request) handler k = (d, refl, kept)
  run_route-Left status (ok p) (fit request) handler k =
      respond-Left status (handler p request (idle d)) ((k p request).at d kept)

  pub serve-Left :
      (rt : Runtime) (settings : Settings) (verifier : Option (String → Decoded)) (call : Call)
      (token : Option String) (write : Write)
      → Left (serve rt settings verifier call token write (idle d)).1
  unfolding serve Rest.create_festival Rest.reschedule_festival Rest.add_game Rest.remove_game
      Rest.start_festival Rest.end_festival Rest.cancel_festival
  serve-Left rt settings verifier call token (create body) =
      run_route-Left 201 (checked rt settings verifier token) body _
        (λ p request. create-Stays before rt settings call p.user_id request)
  serve-Left rt settings verifier call token (reschedule festival_id body) =
      run_route-Left 200 (checked rt settings verifier token) body _
        (λ p request. reschedule-Stays before rt settings call festival_id p.user_id request)
  serve-Left rt settings verifier call token (add_game festival_id body) =
      run_route-Left 201 (checked rt settings verifier token) body _
        (λ p request. add_game-Stays before rt settings call festival_id p.user_id request)
  serve-Left rt settings verifier call token (remove_game festival_id game_id) =
      run_route-Left 200 (checked rt settings verifier token) (fit tt) _
        (λ p request. remove_game-Stays before rt settings call festival_id p.user_id game_id)
  serve-Left rt settings verifier call token (start users festival_id) =
      run_route-Left 200 (checked rt settings verifier token) (fit tt) _
        (λ p request. start-Stays before rt settings call users festival_id p.user_id)
  serve-Left rt settings verifier call token (end_festival festival_id) =
      run_route-Left 200 (checked rt settings verifier token) (fit tt) _
        (λ p request. end_festival-Stays before rt settings call festival_id p.user_id)
  serve-Left rt settings verifier call token (cancel festival_id) =
      run_route-Left 200 (checked rt settings verifier token) (fit tt) _
        (λ p request. cancel-Stays before rt settings call festival_id p.user_id)
