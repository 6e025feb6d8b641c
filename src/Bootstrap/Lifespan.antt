-- ===== src/Bootstrap/Lifespan.antt =====
-- `lifespan` of app/bootstrap.py: what is started before the service takes requests, and stopped
-- after, with the tasks of `Dispatcher` in app/platform/outbox.py. What raises is a parameter.
pub mod Order
pub mod Stops
mod Tests
use festival_service.Prelude.{Bool, true, false, Option, none, some, if◌then◌else◌}
use festival_service.Errors.{Exception, Result, ok, err}
use festival_service.Kafka.Clients
use festival_service.Kafka.Clients.{
  Phase, absent, Running, new_running, Creation, start_consumer, stop_consumer, ensure_topics,
}

-- What the configuration asks for: `cfg.run_migrations`, `cfg.kafka_enabled`,
-- `cfg.kafka_ensure_topics` and whether `cfg.redis_url` is given.
pub record Wiring : Type 0 where
  pub run_migrations : Bool
  pub kafka : Bool
  pub ensure_topics : Bool
  pub redis : Bool

-- What each call that leaves the service raises, if anything.
pub record Faults : Type 0 where
  pub migrate : Option Exception
  pub start_producer : Option Exception
  pub start_admin : Option Exception
  pub create_topics : Creation
  pub close_admin : Option Exception
  pub start_consumer : Option Exception
  pub stop_consumer : Option Exception
  pub stop_producer : Option Exception
  pub close_users : Option Exception
  pub close_redis : Option Exception
  pub dispose_engine : Option Exception

-- What `build` has made and `lifespan` starts and stops. The consumer is made by `lifespan`.
pub record Service : Type 0 where
  pub migrated : Bool
  pub producer : Phase
  pub dispatching : Bool
  pub consumer : Option Running
  pub users_open : Bool
  pub redis_open : Bool
  pub engine_open : Bool

unfoldable pub built : Wiring → Service
built w = record {
  migrated = false;
  producer = absent;
  dispatching = false;
  consumer = none;
  users_open = true;
  redis_open = w.redis;
  engine_open = true;
}

abbrev pub Step : Type 0
Step = Service → Result (Unit {0}) × Service

infixl 5 ◌>>◌
abbrev pub continue : Result (Unit {0}) → Step → Step
continue (ok done) k s = k s
continue (err e) k s = (err e, s)

abbrev pub ◌>>◌ : Step → Step → Step
◌>>◌ m k s = let (r, s') = m s in continue r k s'

abbrev pub skip : Step
skip s = (ok tt, s)

-- A call that changes the service by `done` unless it raises.
abbrev pub call : Option Exception → (Service → Service) → Step
call none done s = (ok tt, done s)
call (some e) done s = (err e, s)

abbrev pub on_producer : (Phase → Result (Unit {0}) × Phase) → Step
on_producer m s = let (r, p) = m s.producer in (r, record s { producer = p })

-- `Dispatcher.start` and `Dispatcher.stop`: the task is made, or cancelled with its cancellation
-- suppressed.
unfoldable pub start_dispatcher : Step
start_dispatcher s = (ok tt, record s { dispatching = true })

unfoldable pub stop_dispatcher : Step
stop_dispatcher s = (ok tt, record s { dispatching = false })

module _ (w : Wiring) (f : Faults) where
  -- `consumer = kafka.Consumer(...)`, and its start
  unfoldable pub begin_consumer : Step
  unfolding start_consumer
  begin_consumer s =
      let (r, c) = start_consumer f.start_consumer new_running in
      (r, record s { consumer = some c })

  unfoldable pub end_consumer : Step
  unfolding stop_consumer
  end_consumer s = elim s.consumer [
    | none ↦ (ok tt, s)
    | some c ↦ let (r, c') = stop_consumer f.stop_consumer c in (r, record s { consumer = some c' })
  ]

  -- The block under `if producer is not None`.
  unfoldable pub start_kafka : Step
  unfolding Clients.start ensure_topics start_dispatcher begin_consumer
  start_kafka =
      on_producer (Clients.start f.start_producer)
      >> (if w.ensure_topics
          then (λ s. (ensure_topics f.start_admin f.create_topics f.close_admin, s))
          else skip)
      >> start_dispatcher
      >> begin_consumer

  -- `lifespan` up to the `yield`.
  unfoldable pub startup : Step
  unfolding start_kafka
  startup =
      (if w.run_migrations then call f.migrate (λ s. record s { migrated = true }) else skip)
      >> (if w.kafka then start_kafka else skip)

  -- The first half of the `finally`.
  unfoldable pub stop_kafka : Step
  unfolding end_consumer stop_dispatcher Clients.stop
  stop_kafka =
      end_consumer
      >> (if w.kafka then stop_dispatcher else skip)
      >> (if w.kafka then on_producer (Clients.stop f.stop_producer) else skip)

  -- The second half.
  unfoldable pub close_clients : Step
  close_clients =
      call f.close_users (λ s. record s { users_open = false })
      >> (if w.redis then call f.close_redis (λ s. record s { redis_open = false }) else skip)
      >> call f.dispose_engine (λ s. record s { engine_open = false })

  unfoldable pub shutdown : Step
  unfolding stop_kafka close_clients
  shutdown = stop_kafka >> close_clients

  -- The `try`: an exception at the `yield` goes on after the `finally`, unless that raises.
  unfoldable pub finally : Result (Unit {0}) → Step
  unfolding shutdown
  finally served s = let (r, s') = shutdown s in (elim r [ ok done ↦ served | err e ↦ err e ], s')

  -- `lifespan`, where `served` is how the `yield` ends.
  unfoldable pub lifespan : Result (Unit {0}) → Step
  unfolding startup finally
  lifespan served = startup >> finally served
