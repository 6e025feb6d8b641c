-- ===== src/System.antt =====
-- The service as a whole, as app/bootstrap.py puts it together: the routes, the consumer of the
-- catalog's events and the dispatcher of the outbox work on one database. Their transactions are
-- taken one after the other, in the order in which they commit.
pub mod Sound
pub mod Messages
pub mod Runs
mod Tests
use festival_service.Prelude.{ℕ, String, Bool, Option, none, some, List, [], ◌∷◌}
use festival_service.Datetime.{Datetime}
use festival_service.Errors.{Exception}
use festival_service.Exec.{World}
use festival_service.Rows.{OutboxMessage}
use festival_service.Runtime.{Runtime}
use festival_service.Call.{Settings, Call}
use festival_service.Auth.{Decoded}
use festival_service.Kafka
use festival_service.Kafka.{Raw, DeadLetter, State, new_consumer, consume}
use festival_service.Consumer.{game_events_router}
use festival_service.Outbox.Dispatcher.{drain_once}
use festival_service.Rest.Histories.{Request}
use festival_service.Rest.Guarded.{serve}

-- A message of the catalog, with what its handler takes from its surroundings at each attempt, and
-- whether the broker accepts a dead letter.
pub record Message : Type 0 where
  pub raw : Raw
  pub calls : ℕ → Call
  pub refused : DeadLetter → Option Exception

-- A batch of the dispatcher, with the answers of the broker, the rows that other replicas hold and
-- the clock.
pub record Batch : Type 0 where
  pub send : OutboxMessage → Option String
  pub locked : ℕ → Bool
  pub now : OutboxMessage → Datetime
  pub batch_size : ℕ

pub data Event : Type 0 where
  request : Request → Event
  message : Message → Event
  batch : Batch → Event

-- The `Consumer` that `lifespan` makes, with the defaults of its constructor.
unfoldable pub consumer_of : String → String → Kafka.Consumer
unfolding new_consumer
consumer_of topic_game_events consumer_group =
    new_consumer topic_game_events consumer_group ".dlq" 3

-- The world after a batch.
unfoldable pub dispatch : Batch → World → World
unfolding drain_once
dispatch b w = record w {
  committed = record w.committed {
    outbox = (drain_once b.send b.locked b.now b.batch_size w.committed.outbox).1;
  };
}

module _ (rt : Runtime) (settings : Settings) (verifier : Option (String → Decoded))
    (name_of text_of : Exception → String) (topic_game_events consumer_group : String) where
  -- What one event does to the database, the dead-letter topic and the offset of the consumer.
  unfoldable pub step : Event → State World → Option (State World)
  unfolding serve consume game_events_router consumer_of dispatch
  step (request r) s =
      some (record s { world = (serve rt settings verifier r.call r.token r.write s.world).1 })
  step (message m) s =
      consume rt name_of text_of m.refused (consumer_of topic_game_events consumer_group)
        (game_events_router rt settings m.calls) m.raw s
  step (batch b) s = some (record s { world = dispatch b s.world })

  unfoldable pub run : List Event → State World → Option (State World)
  unfolding step
  run [] s = some s
  run (e ∷ events) s = elim (step e s) [ none ↦ none | some s' ↦ run events s' ]
