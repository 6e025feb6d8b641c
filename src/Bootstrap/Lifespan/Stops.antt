-- ===== src/Bootstrap/Lifespan/Stops.antt =====
-- How the service stops.
use festival_service.Prelude.{
  ◌≡◌, refl, inl, inr, true, false, none, some, arith, Bool-cases, Option-cases, if◌then◌else◌,
}
use festival_service.Errors.{Exception, Result, ok, err}
use festival_service.Kafka.Clients
use festival_service.Kafka.Clients.{absent, started, stop_consumer}
use festival_service.Bootstrap.Lifespan.{
  Wiring, Faults, Service, built, stop_dispatcher, end_consumer, stop_kafka, close_clients, startup,
  shutdown, finally, lifespan,
}
use festival_service.Bootstrap.Lifespan.Order.{ready, consuming}

-- Nothing of Kafka runs.
abbrev pub without_kafka : Wiring → Service
without_kafka w = record (ready w) {
  producer = absent;
  dispatching = false;
  consumer = if w.kafka then some (record { client = absent; task = false }) else none;
}

-- Nothing runs and nothing is open.
abbrev pub stopped : Wiring → Service
stopped w = record (without_kafka w) { users_open = false; redis_open = false; engine_open = false }

module _ (w : Wiring) (f : Faults) where
  -- How a service that has started ends.
  pub data Ends (served : Result (Unit {0})) (x : Result (Unit {0}) × Service) : Type 0 where
    all_stops : x ≡ (served, stopped w) → Ends served x
    consumer_raises :
        (e : Exception)
        → w.kafka ≡ true
        → f.stop_consumer ≡ some e
        → x ≡ (
          err e,
          record (ready w) { consumer = some (record { client = started; task = false }) },
        )
        → Ends served x
    later_raises :
        (e : Exception)
        → x.0 ≡ err e
        → consuming x.1 ≡ false
        → x.1.dispatching ≡ false
        → x.1.engine_open ≡ true
        → Ends served x

  close_clients-Ends : Ends (ok tt) (close_clients w f (without_kafka w))
  unfolding close_clients built
  close_clients-Ends = elim (Option-cases f.close_users) [
    | inr (e, raises) ↦ later_raises e (ground arith) (ground arith) (ground arith) (ground arith)
    | inl closed ↦ elim (Bool-cases w.redis) [
      | inr unused ↦ elim (Option-cases f.dispose_engine) [
        | inr (e, raises) ↦
            later_raises e (ground arith) (ground arith) (ground arith) (ground arith)
        | inl disposed ↦ all_stops (ground arith)
      ]
      | inl used ↦ elim (Option-cases f.close_redis) [
        | inr (e, raises) ↦
            later_raises e (ground arith) (ground arith) (ground arith) (ground arith)
        | inl left ↦ elim (Option-cases f.dispose_engine) [
          | inr (e, raises) ↦
              later_raises e (ground arith) (ground arith) (ground arith) (ground arith)
          | inl disposed ↦ all_stops (ground arith)
        ]
      ]
    ]
  ]

  stop_kafka-without : w.kafka ≡ false → stop_kafka w f (ready w) ≡ (ok tt, without_kafka w)
  unfolding stop_kafka end_consumer built
  stop_kafka-without off = ground arith

  stop_kafka-quiet :
      w.kafka ≡ true
      → f.stop_consumer ≡ none
      → f.stop_producer ≡ none
      → stop_kafka w f (ready w) ≡ (ok tt, without_kafka w)
  unfolding stop_kafka end_consumer stop_consumer stop_dispatcher Clients.stop built
  stop_kafka-quiet on c p = ground arith

  raising_consumer :
      (e : Exception)
      → w.kafka ≡ true
      → f.stop_consumer ≡ some e
      → Ends (ok tt) (shutdown w f (ready w))
  unfolding shutdown stop_kafka end_consumer stop_consumer stop_dispatcher Clients.stop built
  raising_consumer e on raises = consumer_raises e on raises (ground arith)

  raising_producer :
      (e : Exception)
      → w.kafka ≡ true
      → f.stop_consumer ≡ none
      → f.stop_producer ≡ some e
      → Ends (ok tt) (shutdown w f (ready w))
  unfolding shutdown stop_kafka end_consumer stop_consumer stop_dispatcher Clients.stop built
  raising_producer e on c raises =
      later_raises e (ground arith) (ground arith) (ground arith) (ground arith)

  shutdown-Ends : Ends (ok tt) (shutdown w f (ready w))
  unfolding shutdown
  shutdown-Ends = elim (Bool-cases w.kafka) [
    | inr off ↦ rw (stop_kafka-without off) close_clients-Ends
    | inl on ↦ elim (Option-cases f.stop_consumer) [
      | inr (e, raises) ↦ raising_consumer e on raises
      | inl c ↦ elim (Option-cases f.stop_producer) [
        | inr (e, raises) ↦ raising_producer e on c raises
        | inl p ↦ rw (stop_kafka-quiet on c p) close_clients-Ends
      ]
    ]
  ]

  finally-Ends :
      (served : Result (Unit {0})) (x : Result (Unit {0}) × Service)
      → Ends (ok tt) x
      → Ends served (elim x.0 [ ok done ↦ served | err e ↦ err e ], x.1)
  finally-Ends served x (all_stops same) = all_stops (rw same refl)
  finally-Ends served x (consumer_raises e on raises same) =
      consumer_raises e on raises (rw same refl)
  finally-Ends served x (later_raises e raised consumer dispatcher engine) =
      later_raises e (rw raised refl) consumer dispatcher engine

  -- A service that has started ends in one of three ways, whatever raises and however the `yield`
  -- ends. Everything stops and is closed, and `lifespan` ends as the `yield` did. Or stopping the
  -- consumer raises: then only its loop has ended, the dispatcher's goes on, the producer stays
  -- started and the clients of the directory and of Redis and the engine stay as they were. Or a
  -- later call raises: then no loop runs, but the engine stays open.
  pub lifespan_lem :
      (served : Result (Unit {0}))
      → startup w f (built w) ≡ (ok tt, ready w)
      → Ends served (lifespan w f served (built w))
  unfolding lifespan finally
  lifespan_lem served up = rw up (finally-Ends served (shutdown w f (ready w)) shutdown-Ends)
