-- ===== src/Service.antt =====
-- app/application/festival_service.py: the use cases of the administrators. `rt` and `settings` are
-- fixed when the service is built; `call` is what one call takes from the clock and the ids.
pub mod Session
pub mod Listing
pub mod Update
pub mod Carried
pub mod Detail
pub mod Actions
pub mod Refinement
pub mod Audience
pub mod Creation
pub mod Enqueues
mod Tests
pub mod Payloads
use festival_service.Service.Payloads.{
  created_payload, started_payload, game_added_payload, game_removed_payload, closed_payload,
}
use festival_service.Prelude.{String, Bool, not, Option, none, some, List, [], ◌∷◌}
use festival_service.Text.{f_string}
use festival_service.Datetime.{Datetime}
use festival_service.Dict.{keys}
use festival_service.Json.{Fields, end, field, text, arr, texts}
use festival_service.Errors
use festival_service.Errors.{Exception, Result, ok, err, not_found, failed_precondition}
use festival_service.Exec.{Exec, pure, raise, lift, ◌>>=◌, ◌>>◌, begin, read}
use festival_service.Runtime.{Runtime}
use festival_service.Call.{Settings, Call}
use festival_service.Festival
use festival_service.Festival.{Festival}
use festival_service.Snapshots.{CatalogGameSnapshot}
use festival_service.Repositories.Festivals
use festival_service.Repositories.Festivals.{festival_not_found}
use festival_service.Repositories.CatalogGames
use festival_service.Repositories.Promotions
use festival_service.Events
use festival_service.Publisher
use festival_service.Directory.{Lookup, active_user_ids}
use festival_service.Dto.{
  CreateFestivalRequest, RescheduleFestivalRequest, AddGameRequest, FestivalDetailView, of_detail,
}

-- `if x is None: raise e`
abbrev pub or_raise {ℓ} : {A : Type ℓ} → Option A → Exception → Exec A
or_raise none e = raise e
or_raise (some a) e = pure a

abbrev pub unless : Bool → Exception → Exec (Unit {0})
unless b e = lift (Errors.raise_if (not b) e)

-- `_load`
unfoldable pub load : String → Exec Festival
unfolding Festivals.get_for_update
load festival_id = do
  found ← Festivals.get_for_update festival_id
  or_raise found (festival_not_found festival_id)

abbrev pub game_unknown : String → Exception
game_unknown game_id =
    not_found (f_string ("game " ∷ game_id ∷ " is not known to this service yet" ∷ []))
      "GAME_UNKNOWN"

abbrev pub game_not_published : String → Exception
game_not_published game_id =
    failed_precondition (f_string ("game " ∷ game_id ∷ " is not published" ∷ []))
      "GAME_NOT_PUBLISHED"

module _ (rt : Runtime) (settings : Settings) where
  -- `self._publisher.enqueue` with the festival as the aggregate
  abbrev pub publish : Call → String → String → Fields → Exec (Unit {0})
  publish call event_type festival_id payload =
      Publisher.enqueue rt settings call event_type Events.aggregate_festival festival_id payload

  -- `_detail`
  unfoldable pub detail : String → Exec FestivalDetailView
  unfolding read Festivals.find Promotions.list_for_festival of_detail
  detail festival_id = read (do
    found ← Festivals.find festival_id
    festival ← or_raise found (festival_not_found festival_id)
    promotions ← Promotions.list_for_festival rt festival_id
    pure (of_detail festival promotions))

  -- The block under `uow.begin()` in each use case.
  unfoldable pub create_block : Call → String → Festival → Exec (Unit {0})
  unfolding Festivals.add created_payload Publisher.enqueue
  create_block call admin_id festival = do
    Festivals.add festival
    publish call Events.festival_created festival.id (created_payload rt festival admin_id)

  unfoldable pub create : Call → String → CreateFestivalRequest → Exec FestivalDetailView
  unfolding Festival.create create_block begin detail
  create call admin_id request = do
    festival ← lift (
        Festival.create call.new_id request.name request.description request.starts_at
          request.ends_at admin_id call.now)
    begin (create_block call admin_id festival)
    detail festival.id

  unfoldable pub reschedule_block : Call → String → RescheduleFestivalRequest → Exec (Unit {0})
  unfolding load Festival.reschedule Festivals.save
  reschedule_block call festival_id request = do
    festival ← load festival_id
    festival ← lift (Festival.reschedule festival request.starts_at request.ends_at call.now)
    festival ← Festivals.save festival
    pure tt

  unfoldable pub reschedule :
      Call → String → String → RescheduleFestivalRequest → Exec FestivalDetailView
  unfolding reschedule_block begin detail
  reschedule call festival_id admin_id request = do
    begin (reschedule_block call festival_id request)
    detail festival_id

  unfoldable pub add_game_block : Call → String → String → AddGameRequest → Exec (Unit {0})
  unfolding CatalogGames.find load Festival.add_game Festivals.save game_added_payload
      Publisher.enqueue
  add_game_block call festival_id admin_id request = do
    found ← CatalogGames.find request.game_id
    game ← or_raise found (game_unknown request.game_id)
    unless game.published (game_not_published request.game_id)
    festival ← load festival_id
    festival ←
        lift
          (Festival.add_game festival game.game_id game.title game.developer_id admin_id call.now)
    festival ← Festivals.save festival
    publish call Events.festival_game_added festival.id (game_added_payload festival game admin_id)

  unfoldable pub add_game : Call → String → String → AddGameRequest → Exec FestivalDetailView
  unfolding add_game_block begin detail
  add_game call festival_id admin_id request = do
    begin (add_game_block call festival_id admin_id request)
    detail festival_id

  unfoldable pub remove_game_block : Call → String → String → String → Exec (Unit {0})
  unfolding load Festival.remove_game Festivals.save game_removed_payload Publisher.enqueue
  remove_game_block call festival_id admin_id game_id = do
    festival ← load festival_id
    festival ← lift (Festival.remove_game festival game_id)
    festival ← Festivals.save festival
    publish call Events.festival_game_removed festival.id
        (game_removed_payload festival game_id admin_id)

  unfoldable pub remove_game : Call → String → String → String → Exec FestivalDetailView
  unfolding remove_game_block begin detail
  remove_game call festival_id admin_id game_id = do
    begin (remove_game_block call festival_id admin_id game_id)
    detail festival_id

  -- `_audience`; the directory is `none` where none is configured.
  unfoldable pub audience_of : Option Lookup → Result (List String)
  unfolding active_user_ids
  audience_of none = ok []
  audience_of (some lookup) = active_user_ids rt lookup

  unfoldable pub start_block : Call → String → String → List String → Exec (Unit {0})
  unfolding load Festival.start Festivals.save started_payload Publisher.enqueue
  start_block call festival_id admin_id audience = do
    festival ← load festival_id
    festival ← lift (Festival.start festival call.now)
    festival ← Festivals.save festival
    publish call Events.festival_started festival.id (started_payload rt festival admin_id audience)

  unfoldable pub start : Call → Option Lookup → String → String → Exec FestivalDetailView
  unfolding audience_of start_block begin detail
  start call users festival_id admin_id = do
    audience ← lift (audience_of users)
    begin (start_block call festival_id admin_id audience)
    detail festival_id

  unfoldable pub end_block : Call → String → String → Exec (Unit {0})
  unfolding load Festival.end_festival Festivals.save closed_payload Publisher.enqueue
  end_block call festival_id admin_id = do
    festival ← load festival_id
    festival ← lift (Festival.end_festival festival call.now)
    festival ← Festivals.save festival
    publish call Events.festival_ended festival.id (closed_payload "ended_by" festival admin_id)

  -- `FestivalService.end`
  unfoldable pub end_festival : Call → String → String → Exec FestivalDetailView
  unfolding end_block begin detail
  end_festival call festival_id admin_id = do
    begin (end_block call festival_id admin_id)
    detail festival_id

  unfoldable pub cancel_block : Call → String → String → Exec (Unit {0})
  unfolding load Festival.cancel Festivals.save closed_payload Publisher.enqueue
  cancel_block call festival_id admin_id = do
    festival ← load festival_id
    festival ← lift (Festival.cancel festival call.now)
    festival ← Festivals.save festival
    publish call Events.festival_cancelled festival.id
        (closed_payload "cancelled_by" festival admin_id)

  unfoldable pub cancel : Call → String → String → Exec FestivalDetailView
  unfolding cancel_block begin detail
  cancel call festival_id admin_id = do
    begin (cancel_block call festival_id admin_id)
    detail festival_id

  -- `FestivalService.get`
  unfoldable pub get : String → Exec FestivalDetailView
  unfolding detail
  get festival_id = detail festival_id
