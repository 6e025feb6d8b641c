-- ===== src/CatalogSync/Announcement.antt =====
-- When a discount is announced.
use festival_service.Prelude.{String, ◌≡◌}
use festival_service.Json.{Fields, get_text}
use festival_service.Errors.{Result, ok}
use festival_service.Exec.{World}
use festival_service.Runtime.{Runtime}
use festival_service.Call.{Settings, Call}
use festival_service.Rows.{Database}
use festival_service.Festival.{Festival}
use festival_service.Repositories.Promotions
use festival_service.Repositories.Festivals
use festival_service.Service.Session.{within}
use festival_service.CatalogSync.Payload.{require}
use festival_service.CatalogSync.Announced.{Announced, Unannounced}

module _ (rt : Runtime) (settings : Settings) (call : Call) (event_type : String)
    (payload : Fields) where
  -- A block that leaves the outbox alone.
  abbrev Quiet : Database → Result (Unit {0}) × World → Type 0
  Quiet s x =
      (r : Result (Unit {0})) × (s' : Database) × (x ≡ (r, within s s'))
      × (s'.outbox ≡ s.outbox)
      × Unannounced rt settings call event_type payload s

  -- A block that announces a discount.
  abbrev Loud : Database → Result (Unit {0}) × World → Type 0
  Loud s x =
      (s' : Database) × (x ≡ (ok tt, within s s'))
      × Announced rt settings call event_type payload s s'

  module _ (promotion_id game_id : String) (d : Database)
      (named : require rt payload "promotion_id" ≡ ok promotion_id)
      (about : require rt payload "game_id" ≡ ok game_id) where
    abbrev festival_id : String
    festival_id = get_text rt.repr "festival_id" payload
