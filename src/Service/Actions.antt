-- ===== src/Service/Actions.antt =====
-- The use cases of app/application/festival_service.py on a festival that is there, as one type, and
-- what each of them is meant to do: a command of the aggregate and an event, or a refusal.
use festival_service.Prelude.{String, ◌≡◌, refl, Option, none, some, List, arith, if◌then◌else◌}
use festival_service.Json.{Fields}
use festival_service.Dict.{get}
use festival_service.Errors.{Result, ok, err}
use festival_service.Exec.{Exec, idle, begin, ◌>>◌}
use festival_service.Runtime.{Runtime}
use festival_service.Call.{Settings, Call}
use festival_service.Events
use festival_service.Rows.{Database, CatalogGameRow}
use festival_service.Festival.{Festival}
use festival_service.Festival.Commands
use festival_service.Festival.Commands.{Command, apply}
use festival_service.Repositories.Mapping.{to_catalog_game}
use festival_service.Directory.{Lookup}
use festival_service.Dto.{RescheduleFestivalRequest, AddGameRequest, FestivalDetailView}
use festival_service.Service
use festival_service.Service.{audience_of, game_unknown, game_not_published, detail}
use festival_service.Service.Payloads.{
  started_payload, game_added_payload, game_removed_payload, closed_payload,
}
use festival_service.Service.Update.{update, emit}

pub data Action : Type 0 where
  reschedule : RescheduleFestivalRequest → Action
  add_game : AddGameRequest → Action
  remove_game : String → Action
  start : Option Lookup → Action
  end_festival cancel : Action

module _ (rt : Runtime) (settings : Settings) (call : Call) (festival_id admin_id : String) where
  unfoldable pub perform : Action → Exec FestivalDetailView
  unfolding Service.reschedule Service.add_game Service.remove_game Service.start
      Service.end_festival Service.cancel
  perform (reschedule request) = Service.reschedule rt settings call festival_id admin_id request
  perform (add_game request) = Service.add_game rt settings call festival_id admin_id request
  perform (remove_game game_id) = Service.remove_game rt settings call festival_id admin_id game_id
  perform (start users) = Service.start rt settings call users festival_id admin_id
  perform end_festival = Service.end_festival rt settings call festival_id admin_id
  perform cancel = Service.cancel rt settings call festival_id admin_id

  -- A command, and the event for the festival that it leaves.
  abbrev pub Plan : Type 0
  Plan = Command × (Festival → Option (String × Fields))

  game_plan : Option CatalogGameRow → String → Result Plan
  game_plan none game_id = err (game_unknown game_id)
  game_plan (some row) game_id =
      if row.published
      then ok (
        Commands.add_game row.game_id row.title row.developer_id admin_id call.now,
        λ f. some (Events.festival_game_added, game_added_payload f (to_catalog_game row) admin_id),
      )
      else err (game_not_published game_id)

  start_plan : Result (List String) → Result Plan
  start_plan (err e) = err e
  start_plan (ok audience) = ok (
    Commands.start call.now,
    λ f. some (Events.festival_started, started_payload rt f admin_id audience),
  )

  unfoldable pub plan : Database → Action → Result Plan
  unfolding game_plan start_plan
  plan d (reschedule request) =
      ok (Commands.reschedule request.starts_at request.ends_at call.now, λ f. none)
  plan d (add_game request) = game_plan (get request.game_id d.catalog_games) request.game_id
  plan d (remove_game game_id) = ok (
    Commands.remove_game game_id,
    λ f. some (Events.festival_game_removed, game_removed_payload f game_id admin_id),
  )
  plan d (start users) = start_plan (audience_of rt settings users)
  plan d end_festival = ok (
    Commands.end_festival call.now,
    λ f. some (Events.festival_ended, closed_payload "ended_by" f admin_id),
  )
  plan d cancel = ok (
    Commands.cancel call.now,
    λ f. some (Events.festival_cancelled, closed_payload "cancelled_by" f admin_id),
  )

  -- A plan that is carried out: one transaction, and then the festival's page.
  abbrev pub planned : Result Plan → Exec FestivalDetailView
  planned (err e) w = (err e, w)
  planned (ok (c, ev)) w =
      (begin (update rt settings call festival_id (λ f. apply f c) ev)
          >> detail rt settings festival_id)
        w

  -- Each use case does what its plan says.
  pub perform-planned :
      (d : Database) (a : Action) → perform a (idle d) ≡ planned (plan d a) (idle d)
  unfolding perform plan update apply emit
  perform-planned d (reschedule request) = refl
  perform-planned d (add_game request) = ground arith
  perform-planned d (remove_game game_id) = refl
  perform-planned d (start users) = ground arith
  perform-planned d end_festival = refl
  perform-planned d cancel = refl
