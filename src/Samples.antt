-- ===== src/Samples.antt =====
-- Inputs that the tests share.
use festival_service.Prelude.{String, true, none, some, []}
use festival_service.Datetime.{aware}
use festival_service.Json.{Json, obj, text, int, end, field}
use festival_service.Int.{pos}
use festival_service.Runtime.{Runtime}
use festival_service.Call.{Settings, Call}
use festival_service.Errors.{Exception}
use festival_service.Rows.{Database}

abbrev pub rt : Runtime
rt = record {
  upper = λ s. s;
  is_alpha = λ c. true;
  repr = λ v. "";
  isoformat = λ t. "2026-07-27T12:00:00+00:00";
  fromisoformat = λ s. some (aware 0);
  int_of_float = λ s. none;
}

abbrev pub settings : Settings
settings = record { service_name = "festival-service"; topic_festival_events = "festival-events" }

abbrev pub call : Call
call = record {
  now = aware 11;
  new_id = "f2";
  event_id = "e1";
  occurred_at = aware 11;
  correlation_id = "c1";
  default_starts_at = aware 11;
  default_ends_at = aware 11;
}

abbrev pub empty_database : Database
empty_database = record {
  festivals = [];
  catalog_games = [];
  promotions = [];
  outbox = [];
  next_id = 1;
}

-- The text of an exception.
abbrev pub name_of : Exception → String
name_of e = "RuntimeError"

-- A message about a game.
abbrev pub message : Json
message = obj (
    field "event_id" (text "e7") (
      field "event_type" (text "arcadia.catalog.v1.GamePublished") (
        field "aggregate_id" (text "g1") (
          field "occurred_at" (text "2026-07-27T12:00:00Z") (
            field "schema_version" (int (pos 1)) (
              field "payload" (obj (field "game_id" (text "g1") (field "title" (text "Go") end)))
                end))))))
