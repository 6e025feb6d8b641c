-- ===== src/Bootstrap/Lifespan/Order.antt =====
-- The order in which the service starts and stops.
use festival_service.Prelude.{
  ◌≡◌, ◌≢◌, refl, inl, inr, ◌⊎◌, Bool, true, false, Option, none, some, arith, if◌then◌else◌,
}
use festival_service.Errors.{Exception, Result, ok, err}
use festival_service.Kafka.Clients
use festival_service.Kafka.Clients.{
  Phase, new_running, absent, unstarted, started, Running, ensure_topics, start_consumer,
  stop_consumer,
}
use festival_service.Bootstrap.Lifespan.{
  Wiring, Faults, Service, built, Step, skip, call, continue, on_producer, start_dispatcher,
  begin_consumer, start_kafka, startup,
}

-- What runs once the service takes requests.
abbrev pub ready : Wiring → Service
ready w = record (built w) {
  migrated = w.run_migrations;
  producer = if w.kafka then started else absent;
  dispatching = w.kafka;
  consumer = if w.kafka then some (record { client = started; task = true }) else none;
}

-- The loop of the consumer runs.
abbrev pub consuming : Service → Bool
consuming s = elim s.consumer [ none ↦ false | some c ↦ c.task ]

-- The consumer's loop has the dispatcher's beside it, the dispatcher has a started producer, and
-- nothing of Kafka is touched before the migrations.
pub record InOrder (w : Wiring) (s : Service) : Type 0 where
  pub announced : consuming s ≡ true → s.dispatching ≡ true
  pub delivered : s.dispatching ≡ true → s.producer ≡ started
  pub up_to_date : s.producer ≢ absent → s.migrated ≡ w.run_migrations

module _ (w : Wiring) where
  -- A step ends well in `t`, or raises and leaves things in order.
  abbrev Outcome : Result (Unit {0}) × Service → Service → Type 0
  Outcome x t = (x ≡ (ok tt, t)) ⊎ ((e : Exception) × (x.0 ≡ err e) × InOrder w x.1)

  continue-Outcome :
      (x : Result (Unit {0}) × Service) (k : Step) (mid t : Service)
      → Outcome x mid
      → Outcome (k mid) t
      → Outcome (continue x.0 k x.1) t
  continue-Outcome x k mid t (inl done) rest = rw done rest
  continue-Outcome x k mid t (inr (e, raised, kept)) rest = rw raised (inr (e, refl, kept))

  unless_raised : (r : Result (Unit {0})) (s : Service) → InOrder w s → Outcome (r, s) s
  unless_raised (ok done) s kept = inl refl
  unless_raised (err e) s kept = inr (e, refl, kept)

  if-Outcome :
      (b : Bool) (m : Step) (s : Service) → Outcome (m s) s → Outcome ((if b then m else skip) s) s
  if-Outcome true m s ends = ends
  if-Outcome false m s ends = inl refl

  built-InOrder : InOrder w (built w)
  unfolding built
  built-InOrder = record {
    announced = λ h. ground arith;
    delivered = λ h. ground arith;
    up_to_date = λ h. absurd (h refl);
  }

  migrate-Outcome :
      (b : Bool) (fails : Option Exception)
      → Outcome
          ((if b then call fails (λ s. record s { migrated = true }) else skip) (built w))
          (record (built w) { migrated = b })
  unfolding built
  migrate-Outcome true none = inl refl
  migrate-Outcome true (some e) = inr (e, refl, built-InOrder)
  migrate-Outcome false fails = inl refl

  -- The database is up to date, and the producer has been started or not.
  abbrev with_producer : Phase → Service
  with_producer p = record (built w) { migrated = w.run_migrations; producer = p }

  with_producer-InOrder : (p : Phase) → InOrder w (with_producer p)
  unfolding built
  with_producer-InOrder p = record {
    announced = λ h. ground arith;
    delivered = λ h. ground arith;
    up_to_date = λ h. refl;
  }

  module _ (f : Faults) where
    producer-Outcome :
        (fails : Option Exception)
        → Outcome (on_producer (Clients.start fails) (with_producer absent)) (with_producer started)
    unfolding Clients.start
    producer-Outcome none = inl refl
    producer-Outcome (some e) = inr (e, refl, with_producer-InOrder unstarted)

    consumer-Outcome :
        Outcome
          (begin_consumer w f (record (with_producer started) { dispatching = true }))
          (record (with_producer started) {
            dispatching = true;
            consumer = some (record { client = started; task = true });
          })
    unfolding begin_consumer start_consumer
    consumer-Outcome =
        elim (f.start_consumer)
          as (λ o.
            Outcome
              (let (r, c) = start_consumer o new_running in
                (r, record (with_producer started) { dispatching = true; consumer = some c }))
              (record (with_producer started) {
                dispatching = true;
                consumer = some (record { client = started; task = true });
              })) [
                | none ↦ inl refl
                | some e ↦ inr (
                  e,
                  refl,
                  record { announced = λ h. refl; delivered = λ h. refl; up_to_date = λ h. refl },
                )
              ]

    start_kafka-Outcome :
        Outcome (start_kafka w f (with_producer absent)) (record (with_producer started) {
          dispatching = true;
          consumer = some (record { client = started; task = true });
        })
    unfolding start_kafka start_dispatcher
    start_kafka-Outcome =
        let topics : Step = λ s. (ensure_topics f.start_admin f.create_topics f.close_admin, s) in
        let dispatching = record (with_producer started) { dispatching = true } in
        let last = record dispatching {
          consumer = some (record { client = started; task = true });
        } in
        continue-Outcome _ (begin_consumer w f) dispatching last
          (continue-Outcome _ start_dispatcher (with_producer started) dispatching
            (continue-Outcome _ (if w.ensure_topics then topics else skip) (with_producer started)
              (with_producer started) (producer-Outcome f.start_producer)
              (if-Outcome w.ensure_topics topics (with_producer started) (
                unless_raised (ensure_topics f.start_admin f.create_topics f.close_admin)
                  (with_producer started) (with_producer-InOrder started))))
            (inl refl))
          consumer-Outcome

    kafka-Outcome :
        (b : Bool)
        → Outcome
            ((if b then start_kafka w f else skip) (with_producer absent))
            (record (with_producer absent) {
              producer = if b then started else absent;
              dispatching = b;
              consumer = if b then some (record { client = started; task = true }) else none;
            })
    unfolding built
    kafka-Outcome true = start_kafka-Outcome
    kafka-Outcome false = inl refl

    -- Whatever fails, `lifespan` comes to the `yield` only with everything that the configuration
    -- asks for: the migrations have run, the producer is started, and the loops of the dispatcher
    -- and the consumer run as tasks. Otherwise it raises, and then no loop runs without a started
    -- producer, nor the consumer's without the dispatcher's, and Kafka was not touched before the
    -- migrations.
    pub startup_lem :
        (startup w f (built w) ≡ (ok tt, ready w))
        ⊎ ((e : Exception) × ((startup w f (built w)).0 ≡ err e)
            × InOrder w (startup w f (built w)).1)
    unfolding startup built
    startup_lem =
        continue-Outcome _ (if w.kafka then start_kafka w f else skip) (with_producer absent)
          (ready w) (migrate-Outcome w.run_migrations f.migrate) (kafka-Outcome w.kafka)
