-- ===== src/Consumer/Registered.antt =====
-- What holds of every handler of a router of app/platform/kafka.py, and of that of game-events.
use festival_service.Prelude.{
  ℕ, String, ◌≡◌, subst, inl, inr, false, some, List, [], ◌∷◌, arith, Bool-cases, ◌==◌,
}
use festival_service.Dict.{Dict, get, set}
use festival_service.Json.{Json, text}
use festival_service.Errors.{ok}
use festival_service.Exec.{World}
use festival_service.Runtime.{Runtime}
use festival_service.Call.{Settings, Call}
use festival_service.Events
use festival_service.Kafka.{Handler, Router, handler_for, on}
use festival_service.Consumer.{
  promotion_events, handle_game_published, handle_game_withdrawn, handle_game_relisted,
  handle_game_updated, promotion_handler, on_promotions, game_events_router,
}

module _ (Good : Handler World → Type 0) where
  pub AllGood : Dict (Handler World) → Type 0
  AllGood [] = Unit
  AllGood ((k, h) ∷ hs) = Good h × AllGood hs

  set-AllGood :
      (k : String) (h : Handler World) (hs : Dict (Handler World))
      → Good h
      → AllGood hs
      → AllGood (set k h hs)
  unfolding set AllGood
  set-AllGood k h [] a rest = (a, tt)
  set-AllGood k h ((j, g) ∷ hs) a rest = elim (Bool-cases (j == k)) [
    | inl here ↦ rw (here) (a, rest.1)
    | inr elsewhere ↦ rw (elsewhere) (rest.0, set-AllGood k h hs a rest.1)
  ]

  get-AllGood :
      (k : String) (h : Handler World) (hs : Dict (Handler World))
      → AllGood hs
      → get k hs ≡ some h
      → Good h
  unfolding get AllGood
  get-AllGood k h [] rest found = absurd (ground arith)
  get-AllGood k h ((j, g) ∷ hs) rest found = elim (Bool-cases (j == k)) [
    | inl here ↦ let same : g ≡ h = ground arith in subst Good same rest.0
    | inr elsewhere ↦ get-AllGood k h hs rest.1 (ground arith)
  ]

  -- Every handler that is registered is good.
  pub record RouterIsGood (router : Router World) : Type 0 where
    pub handlers : AllGood router.handlers

  empty-RouterIsGood : RouterIsGood (record { handlers = []; dead_letter_unknown = false })
  unfolding AllGood
  empty-RouterIsGood = record { handlers = tt }

  on-RouterIsGood :
      (k : String) (h : Handler World) (router : Router World)
      → Good h
      → RouterIsGood router
      → RouterIsGood (on k h router)
  unfolding on
  on-RouterIsGood k h router a rest = record {
    handlers = set-AllGood k h router.handlers a rest.handlers;
  }

  -- A handler that the router finds.
  pub handler_for-Good :
      (event_type : Json) (h : Handler World) (router : Router World)
      → RouterIsGood router
      → handler_for event_type router ≡ ok (some h)
      → Good h
  unfolding handler_for
  handler_for-Good (text k) h router good found =
      get-AllGood k h router.handlers good.handlers (ground arith)
  handler_for-Good _ h router good found = absurd (ground arith)

  module _ (rt : Runtime) (settings : Settings) (calls : ℕ → Call)
      (promotion : (event_type : String)
        → Good (promotion_handler rt settings calls event_type)) where
    on_promotions-RouterIsGood :
        (event_types : List String) (router : Router World)
        → RouterIsGood router
        → RouterIsGood (on_promotions rt settings calls event_types router)
    unfolding on_promotions
    on_promotions-RouterIsGood [] router rest = rest
    on_promotions-RouterIsGood (t ∷ ts) router rest =
        on_promotions-RouterIsGood ts _ (on-RouterIsGood t _ router (promotion t) rest)

    pub game_events_router-RouterIsGood :
        Good (handle_game_published rt settings calls)
        → Good (handle_game_withdrawn rt settings calls)
        → Good (handle_game_relisted rt settings calls)
        → Good (handle_game_updated rt settings calls)
        → RouterIsGood (game_events_router rt settings calls)
    unfolding game_events_router
    game_events_router-RouterIsGood published withdrawn relisted updated =
        on_promotions-RouterIsGood promotion_events _ (
          on-RouterIsGood Events.catalog_game_updated _ _ updated (
            on-RouterIsGood Events.catalog_game_relisted _ _ relisted (
              on-RouterIsGood Events.catalog_game_withdrawn _ _ withdrawn
                (on-RouterIsGood Events.catalog_game_published _ _ published empty-RouterIsGood))))
