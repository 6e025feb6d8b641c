-- ===== src/Bootstrap/Lifespan/Tests.antt =====
-- A service with Kafka and without Redis.
use festival_service.Prelude.{◌≡◌, refl, true, false, ◌⊎◌, none, some}
use festival_service.Errors.{Exception, ok, err, runtime_error, value_error}
use festival_service.Kafka.Clients.{exists}
use festival_service.Bootstrap.Lifespan.{Wiring, Faults, built, startup, lifespan}
use festival_service.Bootstrap.Lifespan.Order.{InOrder, ready, startup_lem}
use festival_service.Bootstrap.Lifespan.Stops.{Ends, lifespan_lem}

abbrev wiring : Wiring
wiring = record { run_migrations = true; kafka = true; ensure_topics = true; redis = false }

-- The topics are there already, and leaving the consumer group fails.
abbrev faults : Faults
faults = record {
  migrate = none;
  start_producer = none;
  start_admin = none;
  create_topics = exists;
  close_admin = none;
  start_consumer = none;
  stop_consumer = some runtime_error;
  stop_producer = none;
  close_users = none;
  close_redis = none;
  dispose_engine = none;
}

starts : startup wiring faults (built wiring) ≡ (ok tt, ready wiring)
unfolding startup
starts = refl

-- A consumer that cannot be started.
start_fails :
    (startup wiring (record faults { start_consumer = some value_error }) (built wiring)).0
    ≡ err value_error
unfolding startup
start_fails = refl

startup_lem_example :
    (startup wiring faults (built wiring) ≡ (ok tt, ready wiring))
    ⊎ ((e : Exception) × ((startup wiring faults (built wiring)).0 ≡ err e)
        × InOrder wiring (startup wiring faults (built wiring)).1)
startup_lem_example = startup_lem wiring faults

lifespan_lem_example : Ends wiring faults (ok tt) (lifespan wiring faults (ok tt) (built wiring))
lifespan_lem_example = lifespan_lem wiring faults (ok tt) starts

-- The dispatcher goes on.
dispatches : (lifespan wiring faults (ok tt) (built wiring)).1.dispatching ≡ true
unfolding lifespan
dispatches = refl
