-- ===== src/System/Runs.antt =====
-- Histories of requests, messages and batches.
use festival_service.Prelude.{
  ℕ, ◌+◌, String, ◌≡◌, refl, ap, sym, ◌∙◌, subst, Option, some, List, [], ◌∷◌, arith,
}
use festival_service.Errors.{Exception}
use festival_service.Exec.{World, idle}
use festival_service.Rows.{Database, OutboxMessage}
use festival_service.Runtime.{Runtime}
use festival_service.Call.{Settings}
use festival_service.Auth.{Decoded}
use festival_service.Money.Codes.{IsUnicode}
use festival_service.Kafka.{DeadLetter, State}
use festival_service.Consumer.{game_events_router}
use festival_service.Consumer.Atomic.{Effects, unchanged, applied_once, consume_once}
use festival_service.Consumer.Registered.{handler_for-Good}
use festival_service.Outbox.Dispatcher.{drain_once, drain}
use festival_service.Outbox.History.{Rising, Unrepeated, Kept, OutboxKept, Grown-refl}
use festival_service.Outbox.History.Batches.{drain-Kept}
use festival_service.Service.Session.{DatabaseIsValid}
use festival_service.Rest.Guarded.{serve}
use festival_service.Rest.Histories.{Request, one_step}
use festival_service.Rest.Enqueues.{serve-Left}
use festival_service.System.{
  Message, Batch, Event, request, message, batch, consumer_of, dispatch, step, run,
}
use festival_service.System.Sound.{Sound}
use festival_service.System.Messages.{KeepsSound, game_events_router-KeepsSound}

-- No transaction is open.
abbrev pub at_rest : Database → List DeadLetter → ℕ → State World
at_rest d letters commits = record { world = idle d; dead_letters = letters; commits = commits }

abbrev pub count_messages : List Event → ℕ
count_messages [] = 0
count_messages (message m ∷ events) = count_messages events + 1
count_messages (_ ∷ events) = count_messages events

module _ (rt : Runtime) (unicode : IsUnicode rt) (settings : Settings)
    (before : List OutboxMessage) where
  -- The world is sound, with no transaction open.
  abbrev SoundlyIdle : World → Type 0
  SoundlyIdle w = (d' : Database) × (w ≡ idle d') × Sound rt before d'

  request-Sound :
      (verifier : Option (String → Decoded)) (r : Request) (d : Database)
      → Sound rt before d
      → SoundlyIdle (serve rt settings verifier r.call r.token r.write (idle d)).1
  request-Sound verifier r d (valid, kept) =
      let (d1, served, valid') = one_step rt settings verifier d r valid in
      let (d2, served', kept') =
        serve-Left before d kept rt settings verifier r.call r.token r.write in
      let same : d2 ≡ d1 = ap (λ (w : World). w.committed) (sym served' ∙ served) in
      (d1, served, (valid', subst (OutboxKept before) same kept'))

  batch-Sound : (b : Batch) (d : Database) → Sound rt before d → SoundlyIdle (dispatch b (idle d))
  unfolding dispatch drain_once
  batch-Sound b d (valid, kept) = (
    record d { outbox = drain b.send b.locked b.now b.batch_size d.outbox },
    refl,
    (
      record { festival_at = valid.festival_at; promotions_load = valid.promotions_load },
      drain-Kept before d.outbox d.next_id b.send b.locked b.now b.batch_size kept,
    ),
  )

  module _ (name_of text_of : Exception → String) (topic_game_events consumer_group : String)
      (m : Message) (d : Database) (sound : Sound rt before d) where
    Effects-Sound :
        (w : World)
        → Effects rt name_of text_of m.refused
            (consumer_of topic_game_events consumer_group)
            m.raw
            d
            (game_events_router rt settings m.calls)
            w
        → SoundlyIdle w
    Effects-Sound w (unchanged same) = (d, same, sound)
    Effects-Sound w (applied_once envelope handler n decoded routed ran) =
        let good : KeepsSound rt unicode before settings handler =
          handler_for-Good (KeepsSound rt unicode before settings) envelope.event_type handler
            (game_events_router rt settings m.calls)
            (game_events_router-KeepsSound rt unicode before settings m.calls) routed in
        let (d', left, sound') = (good.run n envelope).at d sound in
        (d', ap (λ x. x.1) (sym ran) ∙ left, sound')

count_messages-cons :
    (e : Event) (events : List Event)
    → count_messages (e ∷ events) ≡ count_messages (e ∷ []) + count_messages events
count_messages-cons (request r) events = omega arith
count_messages-cons (message m) events = omega arith
count_messages-cons (batch b) events = omega arith

rested :
    {w : World} {d : Database} {commits commits' : ℕ} (letters : List DeadLetter)
    → w ≡ idle d
    → commits ≡ commits'
    → some (record { world = w; dead_letters = letters; commits = commits })
      ≡ some (at_rest d letters commits')
rested letters world count = rw (world, count) refl

module _ (rt : Runtime) (unicode : IsUnicode rt) (settings : Settings)
    (verifier : Option (String → Decoded)) (name_of text_of : Exception → String)
    (topic_game_events consumer_group : String) where
  -- Where a history ends: the database has grown soundly from `before`, and the consumer has got
  -- through so many messages.
  pub record Ends (before : List OutboxMessage) (commits : ℕ) (out : Option (State World))
      : Type 0 where
    pub d' : Database
    pub letters' : List DeadLetter
    pub result : out ≡ some (at_rest d' letters' commits)
    pub valid : DatabaseIsValid rt d'
    pub outbox : Kept before d'.outbox d'.next_id

  step-Ends :
      (before : List OutboxMessage) (e : Event) (d : Database) (letters : List DeadLetter)
      (commits : ℕ)
      → Sound rt before d
      → Ends before (commits + count_messages (e ∷ [])) (
          step rt settings verifier name_of text_of topic_game_events consumer_group e
            (at_rest d letters commits))
  unfolding step
  step-Ends before (request r) d letters commits sound =
      let (d', served, (valid, kept)) =
        request-Sound rt unicode settings before verifier r d sound in
      record {
        d' = d';
        letters' = letters;
        result = rested letters served (omega arith);
        valid = valid;
        outbox = kept;
      }
  step-Ends before (batch b) d letters commits sound =
      let (d', done, (valid, kept)) = batch-Sound rt unicode settings before b d sound in
      record {
        d' = d';
        letters' = letters;
        result = rested letters done (omega arith);
        valid = valid;
        outbox = kept;
      }
  step-Ends before (message m) d letters commits sound =
      let (s', consumed, count, effects) =
        consume_once rt settings m.calls name_of text_of m.refused
          (consumer_of topic_game_events consumer_group) m.raw d letters commits in
      let (d', left, (valid, kept)) =
        Effects-Sound rt unicode settings before name_of text_of topic_game_events consumer_group m
          d sound s'.world effects in
      record {
        d' = d';
        letters' = s'.dead_letters;
        result = consumed ∙ rested s'.dead_letters left (count ∙ omega arith);
        valid = valid;
        outbox = kept;
      }

  -- Histories that begin with a sound database.
  run_from-Ends :
      (before : List OutboxMessage) (events : List Event) (d : Database) (letters : List DeadLetter)
      (commits : ℕ)
      → Sound rt before d
      → Ends before (commits + count_messages events) (
          run rt settings verifier name_of text_of topic_game_events consumer_group events
            (at_rest d letters commits))
  unfolding run
  run_from-Ends before [] d letters commits sound = record {
    d' = d;
    letters' = letters;
    result = rested letters refl (omega arith);
    valid = sound.0;
    outbox = sound.1;
  }
  run_from-Ends before (e ∷ events) d letters commits sound =
      let first = step-Ends before e d letters commits sound in
      let last =
        run_from-Ends before events first.d' first.letters' (commits + count_messages (e ∷ []))
          (first.valid, first.outbox) in
      record {
        d' = last.d';
        letters' = last.letters';
        result =
            rw (run, first.result)
              (last.result
                ∙ ap (λ (n : ℕ). some (at_rest last.d' last.letters' n))
                    (omega (arith, count_messages-cons e events)));
        valid = last.valid;
        outbox = last.outbox;
      }

  -- Whatever requests come in, from whomever, whatever messages arrive from the catalog, well-formed
  -- or not, and however the broker answers to the batches of the outbox, in whatever order: the
  -- service gets through all of them, and ends with no transaction open and one offset committed
  -- for each message. A valid database is valid at the end: every festival row loads as a valid
  -- festival under its own id, and every promotion row can be read. Every row that was in the
  -- outbox is still there in its place, with its ids, topic, key and envelope, and exactly as it
  -- was if it was published; new rows follow with rising ids, and no event id occurs twice.
  pub run-Ends :
      (d : Database) (letters : List DeadLetter) (commits : ℕ) (events : List Event)
      → DatabaseIsValid rt d
      → Rising 0 d.next_id d.outbox
      → Unrepeated d.outbox
      → Ends d.outbox (commits + count_messages events) (
          run rt settings verifier name_of text_of topic_game_events consumer_group events
            (at_rest d letters commits))
  run-Ends d letters commits events valid rising unrepeated =
      run_from-Ends d.outbox events d letters commits
        (valid, record { grown = Grown-refl d.outbox; rising = rising; unrepeated = unrepeated })
