-- ===== src/Events.antt =====
-- app/platform/events.py and the event names of app/application/events.py: the wire envelope.
pub mod Decode
pub mod RoundTrip
pub mod Refusals
mod Tests
use festival_service.Prelude.{ℕ, String, List, [], ◌∷◌, if◌then◌else◌}
use festival_service.Int.{pos}
use festival_service.Text.{is_empty, replace}
use festival_service.Datetime.{Datetime, aware, instant}
use festival_service.Json.{int, text, obj, Fields, end, field}
use festival_service.Runtime.{Runtime}

abbrev pub festival_created : String
festival_created = "arcadia.festival.v1.FestivalCreated"

abbrev pub festival_game_added : String
festival_game_added = "arcadia.festival.v1.FestivalGameAdded"

abbrev pub festival_game_removed : String
festival_game_removed = "arcadia.festival.v1.FestivalGameRemoved"

abbrev pub festival_started : String
festival_started = "arcadia.festival.v1.FestivalStarted"

abbrev pub festival_ended : String
festival_ended = "arcadia.festival.v1.FestivalEnded"

abbrev pub festival_cancelled : String
festival_cancelled = "arcadia.festival.v1.FestivalCancelled"

abbrev pub discount_applied : String
discount_applied = "arcadia.festival.v1.DiscountApplied"

abbrev pub aggregate_festival : String
aggregate_festival = "festival"

abbrev pub catalog_game_published : String
catalog_game_published = "arcadia.catalog.v1.GamePublished"

abbrev pub catalog_game_withdrawn : String
catalog_game_withdrawn = "arcadia.catalog.v1.GameWithdrawn"

abbrev pub catalog_game_relisted : String
catalog_game_relisted = "arcadia.catalog.v1.GameRelisted"

abbrev pub catalog_game_updated : String
catalog_game_updated = "arcadia.catalog.v1.GameUpdated"

abbrev pub catalog_promotion_proposed : String
catalog_promotion_proposed = "arcadia.catalog.v1.PromotionProposed"

abbrev pub catalog_promotion_approved : String
catalog_promotion_approved = "arcadia.catalog.v1.PromotionApproved"

abbrev pub catalog_promotion_rejected : String
catalog_promotion_rejected = "arcadia.catalog.v1.PromotionRejected"

abbrev pub catalog_promotion_cancelled : String
catalog_promotion_cancelled = "arcadia.catalog.v1.PromotionCancelled"

abbrev pub schema_version : ℕ
schema_version = 1

pub record Envelope : Type 0 where
  pub event_type : String
  pub aggregate_type : String
  pub aggregate_id : String
  pub payload : Fields
  pub producer : String
  pub event_id : String
  pub version : ℕ
  pub occurred_at : Datetime
  pub correlation_id : String
  pub causation_id : String
  pub trace_id : String

-- `partition_key`
unfoldable pub partition_key : Envelope → String
partition_key e = e.aggregate_id

-- The loop of `to_dict` over the optional texts: a key with an empty text is left out.
unfoldable pub optional_fields : List (String × String) → Fields
optional_fields [] = end
optional_fields ((k, v) ∷ l) =
    let rest = optional_fields l in if is_empty v then rest else field k (text v) rest

-- `occurred_at.astimezone(UTC).isoformat().replace("+00:00", "Z")`
unfoldable pub wire_time : Runtime → Datetime → String
unfolding replace
wire_time rt t = replace "+00:00" "Z" (rt.isoformat (aware (instant t)))

unfoldable pub to_dict : Runtime → Envelope → Fields
unfolding optional_fields wire_time
to_dict rt e = field "event_id" (text e.event_id) (
    field "event_type" (text e.event_type) (
      field "schema_version" (int (pos e.version)) (
        field "occurred_at" (text (wire_time rt e.occurred_at)) (
          field "producer" (text e.producer) (
            field "aggregate_type" (text e.aggregate_type) (
              field "aggregate_id" (text e.aggregate_id) (
                field "payload" (obj e.payload) (
                  optional_fields (
                    ("correlation_id", e.correlation_id)
                    ∷ ("causation_id", e.causation_id)
                    ∷ ("trace_id", e.trace_id)
                    ∷ [])))))))))
