-- ===== src/Kafka.antt =====
-- app/platform/kafka.py: `Router` and `Consumer`. `W` is what the handlers change; a handler also
-- takes the number of its attempt, which stands for what the clock and the id factory give to it.
pub mod Retries
pub mod Fates
pub mod Accounting
pub mod Loop
pub mod Clients
mod Tests
use festival_service.Prelude.{
  ℕ, zero, suc, ◌+◌, String, Bool, not, Option, none, some, List, [], ◌∷◌, ◌++◌, ltb, if◌then◌else◌,
}
use festival_service.Text.{f_string}
use festival_service.Text.Number.{str_of_int}
use festival_service.Int.{pos}
use festival_service.Dict.{Dict, get, set}
use festival_service.Json
use festival_service.Json.{Json, text, arr, obj, end, field, is_truthy, str}
use festival_service.Errors.{
  Exception, Result, ok, err, malformed_envelope, type_error, is_retryable,
}
use festival_service.Runtime.{Runtime}
use festival_service.Events.Decode.{
  Loaded, loaded, not_json, unloadable, exception_of, Received, decode,
}

-- A message: what `json.loads` makes of its bytes, and the bytes decoded with `errors="replace"`.
pub record Raw : Type 0 where
  pub value : Loaded
  pub lossy : String

-- What the service sends to the dead-letter topic.
pub record DeadLetter : Type 0 where
  pub topic : String
  pub key : String
  pub original : Json
  pub reason : String
  pub source_topic : String
  pub consumer_group : String

-- `Consumer.__init__`
pub record Consumer : Type 0 where
  pub topic : String
  pub group_id : String
  pub dlq_topic : String
  pub max_retries : ℕ

unfoldable pub new_consumer : String → String → String → ℕ → Consumer
new_consumer topic group_id dlq_suffix max_retries = record {
  topic = topic;
  group_id = f_string (group_id ∷ "." ∷ topic ∷ []);
  dlq_topic = f_string (topic ∷ dlq_suffix ∷ []);
  max_retries = max_retries;
}

module _ (W : Type 0) where
  abbrev pub Handler : Type 0
  Handler = ℕ → Received → W → Result (Unit {0}) × W

  pub record Router : Type 0 where
    pub handlers : Dict Handler
    pub dead_letter_unknown : Bool

  -- The handlers' world, the dead letters that the broker has accepted, in order, and the number of
  -- offset commits.
  pub record State : Type 0 where
    pub world : W
    pub dead_letters : List DeadLetter
    pub commits : ℕ

module _ {W : Type 0} where
  -- `Router.on`
  unfoldable pub on : String → Handler W → Router W → Router W
  unfolding set
  on event_type handler router = record router { handlers = set event_type handler router.handlers }

  -- `Router.handler_for`: the event type of an envelope may be any true value; no handler is
  -- registered under one that is no text, and a list or a dict cannot be looked up.
  unfoldable pub handler_for : Json → Router W → Result (Option (Handler W))
  unfolding get
  handler_for (text event_type) router = ok (get event_type router.handlers)
  handler_for (arr xs) router = err type_error
  handler_for (obj fs) router = err type_error
  handler_for v router = ok none

-- `payload` in `_dead_letter`; what `json.loads` raised before, it raises there too.
unfoldable pub original_of : Raw → Result Json
unfolding exception_of
original_of raw = elim raw.value [
  | loaded v ↦ ok v
  | not_json e ↦ ok (obj (field "raw" (text raw.lossy) end))
  | unloadable why ↦ err (exception_of why)
]

-- `str(payload.get("event_id", "unknown")) if isinstance(payload, dict) else "unknown"`
unfoldable pub dead_letter_key : Runtime → Json → String
unfolding Json.get str
dead_letter_key rt (obj payload) = elim (Json.get "event_id" payload) [
  | none ↦ "unknown"
  | some v ↦ str rt.repr v
]
dead_letter_key rt v = "unknown"

-- `envelope.trace_id or envelope.correlation_id or envelope.event_id`
unfoldable pub correlation_of : Received → Json
unfolding is_truthy
correlation_of e =
    if is_truthy (some e.trace_id)
    then e.trace_id
    else if is_truthy (some e.correlation_id)
    then e.correlation_id
    else e.event_id

module _ (rt : Runtime) (consumer : Consumer) where
  unfoldable pub letter_of : Json → String → DeadLetter
  unfolding dead_letter_key
  letter_of original reason = record {
    topic = consumer.dlq_topic;
    key = dead_letter_key rt original;
    original = original;
    reason = reason;
    source_topic = consumer.topic;
    consumer_group = consumer.group_id;
  }

-- The reasons of the dead letters; `name_of` and `text_of` are `type(exc).__name__` and `str(exc)`.
unfoldable pub permanent : (Exception → String) → (Exception → String) → Exception → String
permanent name_of text_of e = f_string (name_of e ∷ ": " ∷ text_of e ∷ [])

unfoldable pub exhausted : (Exception → String) → Consumer → Exception → String
unfolding str_of_int
exhausted text_of consumer e =
    f_string (
      "still failing after "
      ∷ str_of_int (pos consumer.max_retries)
      ∷ " retries: "
      ∷ text_of e
      ∷ [])

unfoldable pub no_handler : Runtime → Received → String
unfolding str
no_handler rt envelope = f_string ("no handler for " ∷ str rt.repr envelope.event_type ∷ [])

-- `refused` gives the exception that `Producer.send` of a dead letter raises, if it does, in the
-- encoding of its key or from the broker.
module _ {W : Type 0} (rt : Runtime) (refused : DeadLetter → Option Exception)
    (consumer : Consumer) where
  -- The send of `_dead_letter`.
  unfoldable pub send : DeadLetter → State W → Result (Unit {0}) × State W
  send letter s = elim (refused letter) [
    | some e ↦ (err e, s)
    | none ↦ (ok tt, record s { dead_letters = s.dead_letters ++ letter ∷ [] })
  ]

  -- `_dead_letter`
  unfoldable pub dead_letter : Raw → String → State W → Result (Unit {0}) × State W
  unfolding original_of letter_of send
  dead_letter raw reason s = elim (original_of raw) [
    | err e ↦ (err e, s)
    | ok original ↦ send (letter_of rt consumer original reason) s
  ]

  -- `except MalformedEnvelope`; another exception of `decode` goes through.
  unfoldable pub undecoded : Raw → Exception → State W → Result (Unit {0}) × State W
  unfolding dead_letter
  undecoded raw (malformed_envelope m) s =
      dead_letter raw (f_string ("malformed envelope: " ∷ m ∷ [])) s
  undecoded raw e s = (err e, s)

module _ {W : Type 0} (rt : Runtime) (name_of text_of : Exception → String)
    (refused : DeadLetter → Option Exception) (consumer : Consumer) where
  -- The `while True` of `_handle_with_retries`, after so many failed attempts; `none` means that
  -- the fuel ran out. The sleeps between the attempts are left out.
  unfoldable pub retry :
      ℕ → Handler W → Received → Raw → ℕ → State W → Option (Result (Unit {0}) × State W)
  unfolding is_retryable dead_letter permanent exhausted
  retry zero handler envelope raw attempt s = none
  retry (suc fuel) handler envelope raw attempt s =
      let (r, w) = handler attempt envelope s.world in
      let s' : State W = record s { world = w } in
      let again = retry fuel handler envelope raw (suc attempt) s' in
      elim r [
        | ok done ↦ some (ok tt, s')
        | err e ↦
            if not (is_retryable e)
            then some (dead_letter rt refused consumer raw (permanent name_of text_of e) s')
            else if ltb consumer.max_retries (suc attempt)
            then some (dead_letter rt refused consumer raw (exhausted text_of consumer e) s')
            else again
      ]

  -- The handler's run, or what happens to an event that has none.
  unfoldable pub dispatch :
      Router W → Received → Raw → State W → Option (Result (Unit {0}) × State W)
  unfolding handler_for retry dead_letter no_handler
  dispatch router envelope raw s = elim (handler_for envelope.event_type router) [
    | err e ↦ some (err e, s)
    | ok (some handler) ↦ retry (consumer.max_retries + 1) handler envelope raw 0 s
    | ok none ↦
        if router.dead_letter_unknown
        then some (dead_letter rt refused consumer raw (no_handler rt envelope) s)
        else some (ok tt, s)
  ]

  -- `_handle_with_retries`
  unfoldable pub handle_with_retries :
      Router W → Raw → State W → Option (Result (Unit {0}) × State W)
  unfolding decode dispatch undecoded
  handle_with_retries router raw s = elim (decode rt raw.value) [
    | ok envelope ↦ dispatch router envelope raw s
    | err e ↦ some (undecoded rt refused consumer raw e s)
  ]

  -- One round of `_loop` whose commit succeeds: an exception is logged, and the offset is committed.
  unfoldable pub consume : Router W → Raw → State W → Option (State W)
  unfolding handle_with_retries
  consume router raw s = elim (handle_with_retries router raw s) [
    | none ↦ none
    | some (r, s') ↦ some (record s' { commits = s'.commits + 1 })
  ]
