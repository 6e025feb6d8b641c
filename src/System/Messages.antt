-- ===== src/System/Messages.antt =====
-- What the handlers of the catalog's events leave of a sound database.
use festival_service.Prelude.{
  ℕ, String, Bool, true, false, Option, none, some, List, ◌&&◌, not, ◌==◌,
}
use festival_service.Text.{is_empty}
use festival_service.Json
use festival_service.Json.{Json, null, Fields, get_text}
use festival_service.Errors.{ok}
use festival_service.Exec.{World, begin, ◌>>=◌}
use festival_service.Exec.Keeps.{
  Keeps, Stays, Keeps-query, Keeps-lift, Keeps-if, Stays-if, Stays-lift, Stays-begin, Keeps-bind,
  Stays-bind, Keeps-lift_bind,
}
use festival_service.Rows.{OutboxMessage}
use festival_service.Runtime.{Runtime}
use festival_service.Call.{Settings, Call}
use festival_service.Events
use festival_service.Events.Decode.{Received}
use festival_service.Festival.{Festival, FestivalGame}
use festival_service.Snapshots.{CatalogGameSnapshot, PromotionSnapshot}
use festival_service.Money.Codes.{IsUnicode}
use festival_service.Kafka.{Handler}
use festival_service.Repositories.CatalogGames
use festival_service.Repositories.Festivals
use festival_service.Repositories.Promotions
use festival_service.CatalogSync
use festival_service.CatalogSync.{
  retitle, retitle_unless_none, announce, record_promotion, record_if_known, promotion_block,
  was_already_active, discount_payload,
}
use festival_service.CatalogSync.Payload.{require, snapshot_of}
use festival_service.CatalogSync.Prices.{snapshot_of-PricesAreMoney}
use festival_service.Consumer.{
  call_of, handle_game_published, handle_game_withdrawn, handle_game_relisted, handle_game_updated,
  promotion_handler, game_events_router,
}
use festival_service.Consumer.Registered.{RouterIsGood, game_events_router-RouterIsGood}
use festival_service.System.Sound.{Sound, upsert_game-Keeps, upsert-Keeps, enqueue-Sound}

module _ (rt : Runtime) (before : List OutboxMessage) where
  -- A game that is looked up, and then written.
  upsert_found-Stays :
      (game_id : String) (g : Option CatalogGameSnapshot → CatalogGameSnapshot)
      → Stays
          (Sound rt before)
          (begin (CatalogGames.find game_id >>= λ found. CatalogGames.upsert (g found)))
  unfolding CatalogGames.find
  upsert_found-Stays game_id g =
      let H = Sound rt before in
      Stays-begin H (CatalogGames.find game_id >>= λ found. CatalogGames.upsert (g found))
        (Keeps-bind H _ _ (Keeps-query H _) (λ found. upsert_game-Keeps rt before (g found)))

  module _ (call : Call) (payload : Fields) where
    game_published-Stays : Stays (Sound rt before) (CatalogSync.game_published rt call payload)
    unfolding CatalogSync.game_published
    game_published-Stays =
        let H = Sound rt before in
        Stays-bind H _ _ (Stays-lift H _)
          (λ game_id. Stays-begin H (CatalogGames.upsert _) (upsert_game-Keeps rt before _))

    game_withdrawn-Stays : Stays (Sound rt before) (CatalogSync.game_withdrawn rt call payload)
    unfolding CatalogSync.game_withdrawn
    game_withdrawn-Stays =
        let H = Sound rt before in
        Stays-bind H _ _ (Stays-lift H _)
          (λ game_id. upsert_found-Stays game_id (CatalogSync.relisted rt call game_id false))

    game_relisted-Stays : Stays (Sound rt before) (CatalogSync.game_relisted rt call payload)
    unfolding CatalogSync.game_relisted
    game_relisted-Stays =
        let H = Sound rt before in
        Stays-bind H _ _ (Stays-lift H _)
          (λ game_id. upsert_found-Stays game_id (CatalogSync.relisted rt call game_id true))

    retitle_unless_none-Stays :
        (game_id : String) (title : Option Json)
        → Stays (Sound rt before) (retitle_unless_none rt call payload game_id title)
    unfolding retitle_unless_none retitle
    retitle_unless_none-Stays game_id none = Stays-lift (Sound rt before) (ok tt)
    retitle_unless_none-Stays game_id (some null) = Stays-lift (Sound rt before) (ok tt)
    retitle_unless_none-Stays game_id (some title) = upsert_found-Stays game_id _

    game_updated-Stays : Stays (Sound rt before) (CatalogSync.game_updated rt call payload)
    unfolding CatalogSync.game_updated
    game_updated-Stays =
        let H = Sound rt before in
        Stays-bind H _ _ (Stays-lift H _)
          (λ game_id. retitle_unless_none-Stays game_id (Json.get "title" payload))

module _ (rt : Runtime) (unicode : IsUnicode rt) (before : List OutboxMessage)
    (settings : Settings) where
  module _ (call : Call) (event_type : String) (payload : Fields) where
    announce-Keeps :
        (selected : Option FestivalGame) (already : Bool) (p : PromotionSnapshot)
        → Keeps (Sound rt before) (announce rt settings call event_type payload selected already p)
    unfolding announce
    announce-Keeps none already p = Keeps-lift (Sound rt before) (ok tt)
    announce-Keeps (some game) already p =
        Keeps-if (Sound rt before) (event_type == Events.catalog_promotion_approved && not already)
          (enqueue-Sound rt before settings call _ _ _ (discount_payload rt payload p game))
          (Keeps-lift (Sound rt before) (ok tt))

    record_if_known-Keeps :
        (promotion_id festival_id game_id : String) (festival : Option Festival)
        → Keeps (Sound rt before) (
            record_if_known rt settings call event_type payload promotion_id festival_id game_id
              festival)
    unfolding record_if_known record_promotion Promotions.find
    record_if_known-Keeps promotion_id festival_id game_id none =
        Keeps-lift (Sound rt before) (ok tt)
    record_if_known-Keeps promotion_id festival_id game_id (some festival) =
        let H = Sound rt before in
        Keeps-bind H _ _ (Keeps-query H _) (λ previous.
          Keeps-lift_bind H _ (snapshot_of rt call payload promotion_id festival_id game_id)
            (λ snapshot built.
              Keeps-bind H _ _
                (upsert-Keeps rt before snapshot (
                  snapshot_of-PricesAreMoney rt unicode call payload promotion_id festival_id
                    game_id snapshot built))
                (λ done. announce-Keeps _ _ snapshot)))

    promotion_block-Keeps :
        (promotion_id festival_id game_id : String)
        → Keeps
            (Sound rt before)
            (promotion_block rt settings call event_type payload promotion_id festival_id game_id)
    unfolding promotion_block Festivals.find
    promotion_block-Keeps promotion_id festival_id game_id =
        let H = Sound rt before in
        Keeps-bind H _ _ (Keeps-query H _)
          (λ found. record_if_known-Keeps promotion_id festival_id game_id found)

    promotion_event-Stays :
        Stays (Sound rt before) (CatalogSync.promotion_event rt settings call event_type payload)
    unfolding CatalogSync.promotion_event
    promotion_event-Stays =
        let H = Sound rt before in
        let festival_id = get_text rt.repr "festival_id" payload in
        Stays-bind H _ _ (Stays-lift H (require rt payload "promotion_id")) (λ promotion_id.
          Stays-bind H _ _ (Stays-lift H (require rt payload "game_id")) (λ game_id.
            Stays-if H (is_empty festival_id) (Stays-lift H (ok tt)) (
              Stays-begin H
                (promotion_block rt settings call event_type payload promotion_id festival_id
                  game_id)
                (promotion_block-Keeps promotion_id festival_id game_id))))

  -- Each run of the handler leaves a sound database sound.
  pub record KeepsSound (handler : Handler World) : Type 0 where
    pub run : (n : ℕ) (envelope : Received) → Stays (Sound rt before) (handler n envelope)

  module _ (calls : ℕ → Call) where
    promotion_handler-KeepsSound :
        (event_type : String) → KeepsSound (promotion_handler rt settings calls event_type)
    unfolding promotion_handler
    promotion_handler-KeepsSound event_type = record {
      run = λ n envelope.
          promotion_event-Stays (call_of rt settings calls n envelope) event_type envelope.payload;
    }

    pub game_events_router-KeepsSound :
        RouterIsGood KeepsSound (game_events_router rt settings calls)
    unfolding handle_game_published handle_game_withdrawn handle_game_relisted handle_game_updated
    game_events_router-KeepsSound =
        game_events_router-RouterIsGood KeepsSound rt settings calls promotion_handler-KeepsSound
          (record {
            run = λ n envelope.
                game_published-Stays rt before (call_of rt settings calls n envelope)
                  envelope.payload;
          })
          (record {
            run = λ n envelope.
                game_withdrawn-Stays rt before (call_of rt settings calls n envelope)
                  envelope.payload;
          })
          (record {
            run = λ n envelope.
                game_relisted-Stays rt before (call_of rt settings calls n envelope)
                  envelope.payload;
          })
          (record {
            run = λ n envelope.
                game_updated-Stays rt before (call_of rt settings calls n envelope)
                  envelope.payload;
          })
