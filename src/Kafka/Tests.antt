-- ===== src/Kafka/Tests.antt =====
-- The consumer at concrete messages.
use festival_service.Prelude.{
  ℕ, ◌+◌, ◌≡◌, refl, Option, none, some, List, Bool, [], ◌∷◌, nat_eq, false, if◌then◌else◌,
}
use festival_service.Errors.{Exception, Result, ok, err, runtime_error}
use festival_service.Samples.{rt, name_of, message}
use festival_service.Events.Decode.{Received, loaded}
use festival_service.Events
use festival_service.Kafka.{
  Raw, DeadLetter, Consumer, Handler, Router, State, retry, consume, new_consumer,
}
use festival_service.Kafka.Retries.{Settled, retry_settles}
use festival_service.Kafka.Fates.{Fate}
use festival_service.Kafka.Loop.{loop, Consumed, loop_lem}
use festival_service.Kafka.Accounting.{consume_accounts}
use festival_service.Json.{text, end}
use festival_service.Datetime.{aware}
use festival_service.Int.{pos}
use festival_service.Json.{int}

abbrev raw : Raw
raw = record { value = loaded message; lossy = "" }

abbrev consumer : Consumer
consumer = record {
  topic = "game-events";
  group_id = "festival-service.game-events";
  dlq_topic = "game-events.dlq";
  max_retries = 3;
}

-- It fails twice, and counts its runs.
abbrev flaky : Handler ℕ
flaky n envelope w = (if nat_eq n 2 then ok tt else err runtime_error, w + 1)

abbrev router : Router ℕ
router = record {
  handlers = (Events.catalog_game_published, flaky) ∷ [];
  dead_letter_unknown = false;
}

abbrev accepted : DeadLetter → Option Exception
accepted letter = none

abbrev start : State ℕ
start = record { world = 0; dead_letters = []; commits = 0 }

abbrev envelope : Received
envelope = record {
  event_id = text "e7";
  event_type = text Events.catalog_game_published;
  version = int (pos 1);
  occurred_at = aware 0;
  producer = text "";
  aggregate_type = text "";
  aggregate_id = text "g1";
  correlation_id = text "";
  causation_id = text "";
  trace_id = text "";
  payload = end;
}

-- Three runs, and a commit.
third_time :
    consume rt name_of name_of accepted consumer router raw start
    ≡ some (record { world = 3; dead_letters = []; commits = 1 })
unfolding consume festival_service.Text.is_empty
third_time = refl

consumer_of : new_consumer "game-events" "festival-service" ".dlq" 3 ≡ consumer
unfolding new_consumer festival_service.Text.f_string
consumer_of = refl

retry_settles_example :
    (out : Result (Unit {0}) × State ℕ) × (retry rt name_of name_of accepted consumer 4 flaky
        envelope raw 0 start
      ≡ some out)
    × Settled rt name_of name_of accepted consumer flaky envelope raw start out
retry_settles_example = retry_settles rt name_of name_of accepted consumer flaky envelope raw start

consume_accounts_example :
    (s' : State ℕ) × (consume rt name_of name_of accepted consumer router raw start ≡ some s')
    × (s'.commits ≡ 1)
    × Fate rt accepted consumer router raw start s'
consume_accounts_example = consume_accounts rt name_of name_of accepted consumer router raw start

-- The second commit fails, and the third message is not reached.
abbrev deliveries : List (Raw × Option Exception)
deliveries = (raw, none) ∷ (raw, some runtime_error) ∷ (raw, none) ∷ []

loop_lem_example :
    (goes_on : Bool) × (s' : State ℕ) × (loop rt name_of name_of accepted consumer router deliveries
        start
      ≡ some (goes_on, s'))
    × Consumed rt name_of name_of accepted consumer router deliveries start goes_on s'
loop_lem_example = loop_lem rt name_of name_of accepted consumer router deliveries start
