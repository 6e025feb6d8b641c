-- ===== src/CatalogSync/Tests.antt =====
-- The handlers of the catalog's events at a concrete database.
use festival_service.Prelude.{true, String, ◌≡◌, refl, none, some, [], ◌∷◌}
use festival_service.Prelude as P
use festival_service.Datetime.{aware}
use festival_service.Int.{pos}
use festival_service.Dict.{get}
use festival_service.Json.{Fields, end, field, text, int}
use festival_service.Errors.{ok}
use festival_service.Exec.{idle}
use festival_service.Runtime.{Runtime}
use festival_service.Call.{Settings, Call}
use festival_service.Rows.{Database, PromotionSnapshotRow}
use festival_service.Events.{catalog_promotion_approved}
use festival_service.CatalogSync.{promotion_event}
use festival_service.CatalogSync.Payload.{require}
use festival_service.CatalogSync.Effects.{promotion_event_active}
use festival_service.CatalogSync.Announced.{Announced}

abbrev rt : Runtime
rt = record {
  upper = λ s. s;
  is_alpha = λ c. true;
  repr = λ v. "";
  isoformat = λ t. "2026-07-27T12:00:00+00:00";
  fromisoformat = λ s. some (aware 0);
  int_of_float = λ s. none;
}

abbrev settings : Settings
settings = record { service_name = "festival-service"; topic_festival_events = "festival-events" }

abbrev call : Call
call = record {
  now = aware 11;
  new_id = "f2";
  event_id = "e1";
  occurred_at = aware 11;
  correlation_id = "c1";
  default_starts_at = aware 11;
  default_ends_at = aware 11;
}

abbrev payload : Fields
payload = field "promotion_id" (text "p1") (
    field "game_id" (text "g1") (
      field "festival_id" (text "f1")
        (field "state" (text "ACTIVE") (field "discount_bps" (int (pos 2500)) end))))

-- A festival with one game, and no promotion yet.
abbrev before : Database
before = record {
  festivals =
      (
        "f1",
        record {
          id = "f1";
          name = "Summer";
          description = "Sun";
          state = "ACTIVE";
          starts_at = aware 20;
          ends_at = aware 30;
          created_by = "admin";
          created_at = aware 10;
          started_at = some (aware 20);
          ended_at = none;
          version = 2;
          games =
              record {
                festival_id = "f1";
                game_id = "g1";
                title = "Go";
                developer_id = "dev";
                added_by = "admin";
                added_at = aware 11;
              }
              ∷ [];
        },
      )
      ∷ [];
  catalog_games = [];
  promotions = [];
  outbox = [];
  next_id = 1;
}

abbrev stored : PromotionSnapshotRow
stored = record {
  promotion_id = "p1";
  festival_id = "f1";
  game_id = "g1";
  state = "ACTIVE";
  discount_bps = pos 2500;
  starts_at = aware 11;
  ends_at = aware 11;
  list_price_minor = none;
  list_price_currency = none;
  effective_price_minor = none;
  effective_price_currency = none;
  updated_at = aware 11;
}

abbrev after : Database
after = record before { promotions = ("p1", stored) ∷ [] }

-- The approval of the promotion is announced.
approval_announced :
    P.length
      (promotion_event rt settings call catalog_promotion_approved payload
        (idle before)).1.committed.outbox
    ≡ 1
unfolding promotion_event festival_service.Repositories.Mapping.state_of_text
    festival_service.Sorting.sort festival_service.Dict.set
approval_announced = refl

approval_recorded :
    (promotion_event rt settings call catalog_promotion_approved payload
      (idle before)).1.committed.promotions
    ≡ after.promotions
unfolding promotion_event festival_service.Repositories.Mapping.state_of_text
    festival_service.Sorting.sort festival_service.Dict.set
approval_recorded = refl

names : require rt payload "promotion_id" ≡ ok "p1"
unfolding require festival_service.Text.is_empty
names = refl

found : get "p1" after.promotions ≡ some stored
unfolding get
found = refl

promotion_event_active_example :
    (promotion_event rt settings call catalog_promotion_approved payload
      (idle after)).1.committed.outbox
    ≡ []
promotion_event_active_example =
    promotion_event_active rt settings call catalog_promotion_approved payload after "p1" stored
      names found refl
