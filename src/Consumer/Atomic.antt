-- ===== src/Consumer/Atomic.antt =====
-- What a message of the catalog does to the database, with the consumer of app/platform/kafka.py
-- around the handlers of app/adapters/inbound/consumer.py.
use festival_service.Prelude.{
  ℕ, zero, suc, ◌+◌, String, ◌≡◌, refl, subst, inl, inr, Option, none, some, List, arith,
  Bool-cases, ltb,
}
use festival_service.Errors.{Exception, Result, ok, malformed_envelope, Result-cases, is_retryable}
use festival_service.Exec.{World, idle}
use festival_service.Rows.{Database}
use festival_service.Runtime.{Runtime}
use festival_service.Call.{Settings, Call}
use festival_service.Events.Decode.{Received, decode}
use festival_service.Kafka
use festival_service.Kafka.{
  Raw, DeadLetter, Handler, Router, State, send, dead_letter, undecoded, retry, dispatch,
  handler_for, on, handle_with_retries, consume, permanent, exhausted,
}
use festival_service.Kafka.Accounting.{consume_accounts}
use festival_service.Consumer.{game_events_router}
use festival_service.Kafka.{no_handler}
use festival_service.Consumer.Registered.{handler_for-Good}
use festival_service.Consumer.Handlers.{IsAtomic, RouterIsAtomic, game_events_router-RouterIsAtomic}

module _ (rt : Runtime) (name_of text_of : Exception → String)
    (refused : DeadLetter → Option Exception) (consumer : Kafka.Consumer) (raw : Raw)
    (d : Database) where
  -- One handler's run on the database, or none.
  pub data Effect (handler : Handler World) (envelope : Received) (w : World) : Type 0 where
    nothing : w ≡ idle d → Effect handler envelope w
    once : (n : ℕ) → handler n envelope (idle d) ≡ (ok tt, w) → Effect handler envelope w

  dead_letter-world :
      (reason : String) (s : State World)
      → (dead_letter rt refused consumer raw reason s).1.world ≡ s.world
  unfolding dead_letter send
  dead_letter-world reason s = ground arith

  undecoded-world :
      (e : Exception) (s : State World) → (undecoded rt refused consumer raw e s).1.world ≡ s.world
  unfolding undecoded
  undecoded-world (malformed_envelope m) s = dead_letter-world _ s
  undecoded-world e s = refl

  -- The state of the consumer with the database of the start.
  abbrev untouched : List DeadLetter → ℕ → State World
  untouched letters commits = record { world = idle d; dead_letters = letters; commits = commits }

  module _ (handler : Handler World) (envelope : Received) (atomic : IsAtomic handler)
      (letters : List DeadLetter) (commits : ℕ) where
    retry-Effect :
        (fuel n : ℕ) {out : Result (Unit {0}) × State World}
        → retry rt name_of text_of refused consumer fuel handler envelope raw n
            (untouched letters commits)
          ≡ some out
        → Effect handler envelope out.1.world
    unfolding retry
    retry-Effect zero n runs = absurd (ground arith)
    retry-Effect (suc fuel) n {out} runs = elim (Result-cases (handler n envelope (idle d)).0) [
      | inl (done, worked) ↦ once n (ground arith)
      | inr (e, failed) ↦
          let back : (handler n envelope (idle d)).1 ≡ idle d =
            (atomic.run n envelope).at d e failed in
          elim (Bool-cases (is_retryable e)) [
            | inr final ↦ nothing (
                ground (
                  arith,
                  dead_letter-world (permanent name_of text_of e) (untouched letters commits),
                ))
            | inl again ↦ elim (Bool-cases (ltb consumer.max_retries (suc n))) [
              | inl spent ↦ nothing (
                  ground (
                    arith,
                    dead_letter-world (exhausted text_of consumer e) (untouched letters commits),
                  ))
              | inr left ↦ retry-Effect fuel (suc n) {out = out} (ground arith)
            ]
          ]
    ]

  module _ (router : Router World) where
    -- What a message has done to the database.
    pub data Effects (w : World) : Type 0 where
      unchanged : w ≡ idle d → Effects w
      applied_once :
          (envelope : Received) (handler : Handler World) (n : ℕ)
          → decode rt raw.value ≡ ok envelope
          → handler_for envelope.event_type router ≡ ok (some handler)
          → handler n envelope (idle d) ≡ (ok tt, w)
          → Effects w

    Effect-Effects :
        (envelope : Received) (handler : Handler World) (w : World)
        → decode rt raw.value ≡ ok envelope
        → handler_for envelope.event_type router ≡ ok (some handler)
        → Effect handler envelope w
        → Effects w
    Effect-Effects envelope handler w decoded routed (nothing same) = unchanged same
    Effect-Effects envelope handler w decoded routed (once n ran) =
        applied_once envelope handler n decoded routed ran

    module _ (atomic : RouterIsAtomic router) (letters : List DeadLetter) (commits : ℕ) where
      dispatch-Effects :
          (envelope : Received) {out : Result (Unit {0}) × State World}
          → decode rt raw.value ≡ ok envelope
          → dispatch rt name_of text_of refused consumer router envelope raw
              (untouched letters commits)
            ≡ some out
          → Effects out.1.world
      unfolding dispatch
      dispatch-Effects envelope {out} decoded runs =
          elim (Result-cases (handler_for envelope.event_type router)) [
            | inr (e, unroutable) ↦ unchanged (ground arith)
            | inl (some handler, routed) ↦
                Effect-Effects envelope handler out.1.world decoded routed (
                  retry-Effect handler envelope
                    (handler_for-Good IsAtomic envelope.event_type handler router atomic routed)
                    letters commits (consumer.max_retries + 1) 0 {out = out} (ground arith))
            | inl (none, unrouted) ↦ unchanged (
                ground
                  (arith, dead_letter-world (no_handler rt envelope) (untouched letters commits)))
          ]

      handle-Effects :
          {out : Result (Unit {0}) × State World}
          → handle_with_retries rt name_of text_of refused consumer router raw
              (untouched letters commits)
            ≡ some out
          → Effects out.1.world
      unfolding handle_with_retries
      handle-Effects {out} runs = elim (Result-cases (decode rt raw.value)) [
        | inl (envelope, decoded) ↦ dispatch-Effects envelope {out = out} decoded (ground arith)
        | inr (e, failed) ↦
            unchanged (ground (arith, undecoded-world e (untouched letters commits)))
      ]

      consume-Effects :
          {s' : State World}
          → consume rt name_of text_of refused consumer router raw (untouched letters commits)
            ≡ some s'
          → Effects s'.world
      unfolding consume
      consume-Effects {s'} runs =
          go
            (handle_with_retries rt name_of text_of refused consumer router raw
              (untouched letters commits))
            refl
        where
          go :
              (o : Option (Result (Unit {0}) × State World))
              → handle_with_retries rt name_of text_of refused consumer router raw
                  (untouched letters commits)
                ≡ o
              → Effects s'.world
          go none h = absurd (ground arith)
          go (some out) h =
              let same : out.1.world ≡ s'.world = ground arith in
              subst Effects same (handle-Effects {out = out} h)

-- Whatever fails and however often the handler is tried, a message of the catalog either leaves the
-- database as it was, or has exactly the effect of one successful run of its handler on it. The
-- consumer always gets through the message, and commits its offset.
pub consume_once :
    (rt : Runtime) (settings : Settings) (calls : ℕ → Call) (name_of text_of : Exception → String)
    (refused : DeadLetter → Option Exception) (consumer : Kafka.Consumer) (raw : Raw) (d : Database)
    (letters : List DeadLetter) (commits : ℕ)
    → (s' : State World) × (consume rt name_of text_of refused consumer
          (game_events_router rt settings calls)
          raw
          (record { world = idle d; dead_letters = letters; commits = commits })
        ≡ some s')
      × (s'.commits ≡ commits + 1)
      × Effects rt name_of text_of refused consumer raw d
          (game_events_router rt settings calls)
          s'.world
consume_once rt settings calls name_of text_of refused consumer raw d letters commits =
    let router = game_events_router rt settings calls in
    let (s', runs, count, fate) =
      consume_accounts rt name_of text_of refused consumer router raw
        (record { world = idle d; dead_letters = letters; commits = commits }) in
    (
      s',
      runs,
      count,
      consume-Effects rt name_of text_of refused consumer raw d router
          (game_events_router-RouterIsAtomic rt settings calls) letters commits {s' = s'} runs,
    )
