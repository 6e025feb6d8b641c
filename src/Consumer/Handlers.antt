-- ===== src/Consumer/Handlers.antt =====
-- The handlers of the catalog's events, behind the router: what they leave when they raise.
use festival_service.Prelude.{ℕ, String}
use festival_service.Exec.{World}
use festival_service.Runtime.{Runtime}
use festival_service.Call.{Settings, Call}
use festival_service.Events.Decode.{Received}
use festival_service.Kafka.{Handler, Router}
use festival_service.Consumer.{
  call_of, handle_game_published, handle_game_withdrawn, handle_game_relisted, handle_game_updated,
  promotion_handler, game_events_router,
}
use festival_service.Consumer.Registered.{RouterIsGood, game_events_router-RouterIsGood}
use festival_service.Consumer.Rollback.{
  RollsBack, game_published-RollsBack, game_withdrawn-RollsBack, game_relisted-RollsBack,
  game_updated-RollsBack, promotion_event-RollsBack,
}

-- Each run of the handler leaves the database as it was if it raises.
pub record IsAtomic (handler : Handler World) : Type 0 where
  pub run : (n : ℕ) (envelope : Received) → RollsBack (handler n envelope)

abbrev pub RouterIsAtomic : Router World → Type 0
RouterIsAtomic = RouterIsGood IsAtomic

module _ (rt : Runtime) (settings : Settings) (calls : ℕ → Call) where
  promotion_handler-IsAtomic :
      (event_type : String) → IsAtomic (promotion_handler rt settings calls event_type)
  unfolding promotion_handler
  promotion_handler-IsAtomic event_type = record {
    run = λ n envelope.
        promotion_event-RollsBack rt settings (call_of rt settings calls n envelope) event_type
          envelope.payload;
  }

  pub game_events_router-RouterIsAtomic : RouterIsAtomic (game_events_router rt settings calls)
  unfolding handle_game_published handle_game_withdrawn handle_game_relisted handle_game_updated
  game_events_router-RouterIsAtomic =
      game_events_router-RouterIsGood IsAtomic rt settings calls promotion_handler-IsAtomic
        (record {
          run = λ n envelope.
              game_published-RollsBack rt (call_of rt settings calls n envelope) envelope.payload;
        })
        (record {
          run = λ n envelope.
              game_withdrawn-RollsBack rt (call_of rt settings calls n envelope) envelope.payload;
        })
        (record {
          run = λ n envelope.
              game_relisted-RollsBack rt (call_of rt settings calls n envelope) envelope.payload;
        })
        (record {
          run = λ n envelope.
              game_updated-RollsBack rt (call_of rt settings calls n envelope) envelope.payload;
        })
