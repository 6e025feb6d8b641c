-- ===== src/Kafka/Clients.antt =====
-- app/platform/kafka.py: starting and stopping `Producer` and `Consumer`, the producer's sends, and
-- `ensure_topics`. What aiokafka raises, if anything, is a parameter of each call of it.
use festival_service.Prelude.{Bool, true, false, Option, none, some}
use festival_service.Errors.{Exception, Result, ok, err, runtime_error}

-- A client of aiokafka in `self._producer` or `self._consumer`: none, one whose start has raised,
-- or a started one.
pub data Phase : Type 0 where
  absent unstarted started : Phase

-- The `AIOKafkaProducer(...)` and the `start()` of `Producer.start`; `Consumer.start` has the same
-- with an `AIOKafkaConsumer`.
unfoldable pub start : Option Exception → Phase → Result (Unit {0}) × Phase
start none client = (ok tt, started)
start (some e) client = (err e, unstarted)

-- `Producer.stop`, and the second half of `Consumer.stop`
unfoldable pub stop : Option Exception → Phase → Result (Unit {0}) × Phase
stop fails absent = (ok tt, absent)
stop none client = (ok tt, absent)
stop (some e) client = (err e, client)

-- `Producer.send`
unfoldable pub send : Option Exception → Phase → Result (Unit {0})
send refused absent = err runtime_error
send none client = ok tt
send (some e) client = err e

-- `Consumer`, as far as it is started: its client, and whether its loop runs as a task.
pub record Running : Type 0 where
  pub client : Phase
  pub task : Bool

-- `Consumer.__init__`
abbrev pub new_running : Running
new_running = record { client = absent; task = false }

-- `Consumer.start`
unfoldable pub start_consumer : Option Exception → Running → Result (Unit {0}) × Running
start_consumer none c = (ok tt, record { client = started; task = true })
start_consumer (some e) c = (err e, record c { client = unstarted })

-- `Consumer.stop`: the cancellation of the task is suppressed, and its loop lets no other exception
-- out.
unfoldable pub stop_consumer : Option Exception → Running → Result (Unit {0}) × Running
unfolding stop
stop_consumer fails c =
    let (r, client) = stop fails c.client in (r, record { client = client; task = false })

-- How `admin.create_topics` ends: `exists` is TopicAlreadyExistsError.
pub data Creation : Type 0 where
  created exists : Creation
  refused : Exception → Creation

-- `except`s and `finally` of `ensure_topics`, once the admin client has started.
unfoldable pub created_or : Creation → Option Exception → Result (Unit {0})
created_or topics (some e) = err e
created_or created none = ok tt
created_or exists none = ok tt
created_or (refused e) none = err e

-- `ensure_topics`: how the client's start and its close end, and the creation.
unfoldable pub ensure_topics : Option Exception → Creation → Option Exception → Result (Unit {0})
unfolding created_or
ensure_topics (some e) topics closes = err e
ensure_topics none topics closes = created_or topics closes
