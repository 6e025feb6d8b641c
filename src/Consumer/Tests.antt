-- ===== src/Consumer/Tests.antt =====
-- A message of the catalog on an empty database.
use festival_service.Prelude.{◌≡◌, Option, some, []}
use festival_service.Errors.{Exception}
use festival_service.Exec.{World, idle}
use festival_service.Samples.{rt, settings, call, name_of, message, empty_database}
use festival_service.Events.Decode.{loaded}
use festival_service.Kafka
use festival_service.Kafka.{Raw, DeadLetter, State, consume}
use festival_service.Consumer.{game_events_router}
use festival_service.Consumer.Atomic.{Effects, consume_once}

abbrev raw : Raw
raw = record { value = loaded message; lossy = "" }

abbrev consumer : Kafka.Consumer
consumer = record {
  topic = "game-events";
  group_id = "festival-service.game-events";
  dlq_topic = "game-events.dlq";
  max_retries = 3;
}

-- The broker refuses dead letters.
abbrev refused : DeadLetter → Option Exception
refused letter = some Exception.runtime_error

consume_once_example :
    (s' : State World) × (consume rt name_of name_of refused consumer
        (game_events_router rt settings (λ n. call))
        raw
        (record { world = idle empty_database; dead_letters = []; commits = 4 })
      ≡ some s')
    × (s'.commits ≡ 5)
    × Effects rt name_of name_of refused consumer raw empty_database
        (game_events_router rt settings (λ n. call))
        s'.world
consume_once_example =
    consume_once rt settings (λ n. call) name_of name_of refused consumer raw empty_database [] 4
