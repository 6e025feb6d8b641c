-- ===== src/Consumer.antt =====
-- app/adapters/inbound/consumer.py: the routing of the catalog's events.
pub mod Rollback
pub mod Registered
pub mod Handlers
pub mod Atomic
mod Tests
use festival_service.Prelude.{ℕ, String, false, List, [], ◌∷◌}
use festival_service.Json.{str}
use festival_service.Exec.{World}
use festival_service.Runtime.{Runtime}
use festival_service.Call.{Settings, Call}
use festival_service.Events
use festival_service.Events.Decode.{Received}
use festival_service.Kafka.{Handler, Router, on, correlation_of}
use festival_service.CatalogSync

-- `_PROMOTION_EVENTS`; the order in which a frozenset gives them does not matter to the router.
abbrev pub promotion_events : List String
promotion_events =
    Events.catalog_promotion_proposed ∷ Events.catalog_promotion_approved
    ∷ Events.catalog_promotion_rejected ∷ Events.catalog_promotion_cancelled ∷ []

-- `calls` gives what the clock and the id factory give to each attempt.
module _ (rt : Runtime) (settings : Settings) (calls : ℕ → Call) where
  -- The correlation id of the envelope is the one of the events that its handler enqueues.
  unfoldable pub call_of : ℕ → Received → Call
  unfolding correlation_of str
  call_of attempt envelope = record (calls attempt) {
    correlation_id = str rt.repr (correlation_of envelope);
  }

  unfoldable pub handle_game_published : Handler World
  unfolding CatalogSync.game_published call_of
  handle_game_published attempt envelope =
      CatalogSync.game_published rt (call_of attempt envelope) envelope.payload

  unfoldable pub handle_game_withdrawn : Handler World
  unfolding CatalogSync.game_withdrawn call_of
  handle_game_withdrawn attempt envelope =
      CatalogSync.game_withdrawn rt (call_of attempt envelope) envelope.payload

  unfoldable pub handle_game_relisted : Handler World
  unfolding CatalogSync.game_relisted call_of
  handle_game_relisted attempt envelope =
      CatalogSync.game_relisted rt (call_of attempt envelope) envelope.payload

  unfoldable pub handle_game_updated : Handler World
  unfolding CatalogSync.game_updated call_of
  handle_game_updated attempt envelope =
      CatalogSync.game_updated rt (call_of attempt envelope) envelope.payload

  -- `_promotion_handler`
  unfoldable pub promotion_handler : String → Handler World
  unfolding CatalogSync.promotion_event call_of
  promotion_handler event_type attempt envelope =
      CatalogSync.promotion_event rt settings (call_of attempt envelope) event_type envelope.payload

  -- The loop over `_PROMOTION_EVENTS`.
  unfoldable pub on_promotions : List String → Router World → Router World
  unfolding on promotion_handler
  on_promotions [] router = router
  on_promotions (event_type ∷ event_types) router =
      on_promotions event_types (on event_type (promotion_handler event_type) router)

  unfoldable pub game_events_router : Router World
  unfolding on on_promotions
  game_events_router = on_promotions promotion_events (
      on Events.catalog_game_updated handle_game_updated (
        on Events.catalog_game_relisted handle_game_relisted (
          on Events.catalog_game_withdrawn handle_game_withdrawn (
            on Events.catalog_game_published handle_game_published
              (record { handlers = []; dead_letter_unknown = false })))))
