-- ===== src/Service/Enqueues/UseCases.antt =====
-- The use cases of app/application/festival_service.py and the outbox.
use festival_service.Prelude.{String, Option, List}
use festival_service.Errors.{ok}
use festival_service.Exec.Keeps.{
  Keeps, Stays, Keeps-query, Keeps-lift, Stays-lift, Keeps-bind, Stays-bind,
}
use festival_service.Rows.{OutboxMessage}
use festival_service.Runtime.{Runtime}
use festival_service.Call.{Settings, Call}
use festival_service.Directory.{Lookup}
use festival_service.Festival.{Festival}
use festival_service.Dto.{CreateFestivalRequest, RescheduleFestivalRequest, AddGameRequest}
use festival_service.Repositories.CatalogGames
use festival_service.Outbox.History.{OutboxKept}
use festival_service.Service
use festival_service.Service.{
  or_raise, unless, load, publish, create_block, reschedule_block, add_game_block,
  remove_game_block, start_block, end_block, cancel_block, detail, audience_of,
}
use festival_service.Service.Enqueues.{
  or_raise-Keeps, changed-Keeps, publish-Keeps, answered-Stays, add-Keeps,
}

module _ (before : List OutboxMessage) (rt : Runtime) (settings : Settings) (call : Call) where
  reschedule_block-Keeps :
      (festival_id : String) (request : RescheduleFestivalRequest)
      → Keeps (OutboxKept before) (reschedule_block rt settings call festival_id request)
  unfolding reschedule_block
  reschedule_block-Keeps festival_id request =
      changed-Keeps before festival_id _ _ (λ f. Keeps-lift (OutboxKept before) (ok tt))

  pub reschedule-Stays :
      (festival_id admin_id : String) (request : RescheduleFestivalRequest)
      → Stays (OutboxKept before) (Service.reschedule rt settings call festival_id admin_id request)
  unfolding Service.reschedule
  reschedule-Stays festival_id admin_id request =
      answered-Stays before rt settings call (reschedule_block rt settings call festival_id request)
        festival_id (reschedule_block-Keeps festival_id request)

  remove_game_block-Keeps :
      (festival_id admin_id game_id : String)
      → Keeps (OutboxKept before) (remove_game_block rt settings call festival_id admin_id game_id)
  unfolding remove_game_block
  remove_game_block-Keeps festival_id admin_id game_id =
      changed-Keeps before festival_id _ _ (λ f. publish-Keeps before rt settings call _ _ _)

  pub remove_game-Stays :
      (festival_id admin_id game_id : String)
      → Stays
          (OutboxKept before)
          (Service.remove_game rt settings call festival_id admin_id game_id)
  unfolding Service.remove_game
  remove_game-Stays festival_id admin_id game_id =
      answered-Stays before rt settings call
        (remove_game_block rt settings call festival_id admin_id game_id) festival_id
        (remove_game_block-Keeps festival_id admin_id game_id)

  end_block-Keeps :
      (festival_id admin_id : String)
      → Keeps (OutboxKept before) (end_block rt settings call festival_id admin_id)
  unfolding end_block
  end_block-Keeps festival_id admin_id =
      changed-Keeps before festival_id _ _ (λ f. publish-Keeps before rt settings call _ _ _)

  pub end_festival-Stays :
      (festival_id admin_id : String)
      → Stays (OutboxKept before) (Service.end_festival rt settings call festival_id admin_id)
  unfolding Service.end_festival
  end_festival-Stays festival_id admin_id =
      answered-Stays before rt settings call (end_block rt settings call festival_id admin_id)
        festival_id (end_block-Keeps festival_id admin_id)

  cancel_block-Keeps :
      (festival_id admin_id : String)
      → Keeps (OutboxKept before) (cancel_block rt settings call festival_id admin_id)
  unfolding cancel_block
  cancel_block-Keeps festival_id admin_id =
      changed-Keeps before festival_id _ _ (λ f. publish-Keeps before rt settings call _ _ _)

  pub cancel-Stays :
      (festival_id admin_id : String)
      → Stays (OutboxKept before) (Service.cancel rt settings call festival_id admin_id)
  unfolding Service.cancel
  cancel-Stays festival_id admin_id =
      answered-Stays before rt settings call (cancel_block rt settings call festival_id admin_id)
        festival_id (cancel_block-Keeps festival_id admin_id)

  add_game_block-Keeps :
      (festival_id admin_id : String) (request : AddGameRequest)
      → Keeps (OutboxKept before) (add_game_block rt settings call festival_id admin_id request)
  unfolding add_game_block CatalogGames.find
  add_game_block-Keeps festival_id admin_id request =
      let H = OutboxKept before in
      Keeps-bind H _ _ (Keeps-query H _) (λ found.
        Keeps-bind H _ _ (or_raise-Keeps before found _) (λ game.
          Keeps-bind H _ _ (Keeps-lift H _) (λ published.
            changed-Keeps before festival_id _ _
              (λ f. publish-Keeps before rt settings call _ _ _))))

  pub add_game-Stays :
      (festival_id admin_id : String) (request : AddGameRequest)
      → Stays (OutboxKept before) (Service.add_game rt settings call festival_id admin_id request)
  unfolding Service.add_game
  add_game-Stays festival_id admin_id request =
      answered-Stays before rt settings call
        (add_game_block rt settings call festival_id admin_id request) festival_id
        (add_game_block-Keeps festival_id admin_id request)

  create_block-Keeps :
      (admin_id : String) (f : Festival)
      → Keeps (OutboxKept before) (create_block rt settings call admin_id f)
  unfolding create_block
  create_block-Keeps admin_id f =
      Keeps-bind (OutboxKept before) _ _ (add-Keeps before f)
        (λ done. publish-Keeps before rt settings call _ _ _)

  pub create-Stays :
      (admin_id : String) (request : CreateFestivalRequest)
      → Stays (OutboxKept before) (Service.create rt settings call admin_id request)
  unfolding Service.create
  create-Stays admin_id request =
      let H = OutboxKept before in
      Stays-bind H _ _ (Stays-lift H _) (λ f.
        answered-Stays before rt settings call (create_block rt settings call admin_id f) f.id
          (create_block-Keeps admin_id f))

  start_block-Keeps :
      (festival_id admin_id : String) (audience : List String)
      → Keeps (OutboxKept before) (start_block rt settings call festival_id admin_id audience)
  unfolding start_block
  start_block-Keeps festival_id admin_id audience =
      changed-Keeps before festival_id _ _ (λ f. publish-Keeps before rt settings call _ _ _)

  pub start-Stays :
      (users : Option Lookup) (festival_id admin_id : String)
      → Stays (OutboxKept before) (Service.start rt settings call users festival_id admin_id)
  unfolding Service.start
  start-Stays users festival_id admin_id =
      let H = OutboxKept before in
      Stays-bind H _ _ (Stays-lift H _) (λ audience.
        answered-Stays before rt settings call
          (start_block rt settings call festival_id admin_id audience) festival_id
          (start_block-Keeps festival_id admin_id audience))
