-- ===== src/Events/Decode.antt =====
-- `Envelope.decode` of app/platform/events.py. What `json.loads` makes of the bytes is a parameter:
-- the value, the text of its JSONDecodeError, or another exception.
use festival_service.Prelude.{
  String, Bool, false, not, Option, none, some, List, [], ◌∷◌, nat_eq, if◌then◌else◌,
}
use festival_service.Int.{pos}
use festival_service.Text.{f_string, replace}
use festival_service.Datetime.{Datetime}
use festival_service.Json.{Json, null, bool, int, text, obj, Fields, end, get, is_truthy, str}
use festival_service.Errors.{
  ◌>>=◌, ◌>>◌, Exception, Result, ok, err, malformed_envelope, value_error, runtime_error,
  type_error,
}
use festival_service.Runtime.{Runtime}

-- Why `json.loads` raises what is no JSONDecodeError: the bytes are no text, an integer has more
-- digits than `int()` converts, the value is nested too deeply, or there are no bytes.
pub data Unloadable : Type 0 where
  no_text too_many_digits too_deep no_value : Unloadable

-- UnicodeDecodeError and ValueError, RecursionError, TypeError; each stands as the class that it
-- belongs to.
unfoldable pub exception_of : Unloadable → Exception
exception_of no_text = value_error
exception_of too_many_digits = value_error
exception_of too_deep = runtime_error
exception_of no_value = type_error

pub data Loaded : Type 0 where
  loaded : Json → Loaded
  not_json : String → Loaded
  unloadable : Unloadable → Loaded

-- An envelope as it is received: its texts are whatever the sender wrote, since `decode` checks
-- only that some of them are true values. `version` is an `int`, or a `bool`, which is one.
pub record Received : Type 0 where
  pub event_id : Json
  pub event_type : Json
  pub version : Json
  pub occurred_at : Datetime
  pub producer : Json
  pub aggregate_type : Json
  pub aggregate_id : Json
  pub correlation_id : Json
  pub causation_id : Json
  pub trace_id : Json
  pub payload : Fields

-- `data.get(k, default)`
abbrev pub get_or : String → Json → Fields → Json
get_or k default fields = elim (get k fields) [ none ↦ default | some v ↦ v ]

-- The loop over the required keys.
unfoldable pub check_required : List String → Fields → Result (Unit {0})
unfolding is_truthy get
check_required [] fields = ok tt
check_required (k ∷ ks) fields =
    let rest = check_required ks fields in
    if is_truthy (get k fields)
    then rest
    else err (malformed_envelope (f_string (k ∷ " is required" ∷ [])))

-- `isinstance(version, int) and version > 0`
unfoldable pub is_supported : Json → Bool
is_supported (bool b) = b
is_supported (int (pos n)) = not (nat_eq n 0)
is_supported v = false

unfoldable pub check_version : Runtime → Json → Result (Unit {0})
unfolding is_supported
check_version rt version =
    if is_supported version
    then ok tt
    else err (malformed_envelope (f_string ("unsupported schema version " ∷ rt.repr version ∷ [])))

unfoldable pub parse_time : Runtime → Json → Result Datetime
unfolding str replace
parse_time rt occurred = elim (rt.fromisoformat (replace "Z" "+00:00" (str rt.repr occurred))) [
  | some t ↦ ok t
  | none ↦ err (
      malformed_envelope
        (f_string ("occurred_at " ∷ rt.repr occurred ∷ " is not a timestamp" ∷ [])))
]

unfoldable pub payload_of : Option Json → Result Fields
payload_of none = ok end
payload_of (some null) = ok end
payload_of (some (obj payload)) = ok payload
payload_of (some v) = err (malformed_envelope "payload must be a JSON object")

-- `decode` of a JSON object
unfoldable pub decode_dict : Runtime → Fields → Result Received
unfolding check_required check_version parse_time payload_of get
decode_dict rt fields = do
  check_required ("event_id" ∷ "event_type" ∷ "aggregate_id" ∷ "occurred_at" ∷ []) fields
  check_version rt (get_or "schema_version" (int (pos 0)) fields)
  parsed ← parse_time rt (get_or "occurred_at" null fields)
  payload ← payload_of (get "payload" fields)
  ok (record {
    event_id = get_or "event_id" null fields;
    event_type = get_or "event_type" null fields;
    version = get_or "schema_version" (int (pos 0)) fields;
    occurred_at = parsed;
    producer = get_or "producer" (text "") fields;
    aggregate_type = get_or "aggregate_type" (text "") fields;
    aggregate_id = get_or "aggregate_id" null fields;
    correlation_id = get_or "correlation_id" (text "") fields;
    causation_id = get_or "causation_id" (text "") fields;
    trace_id = get_or "trace_id" (text "") fields;
    payload = payload;
  })

unfoldable pub decode : Runtime → Loaded → Result Received
unfolding decode_dict exception_of
decode rt (not_json exc) = err (malformed_envelope (f_string ("not JSON: " ∷ exc ∷ [])))
decode rt (unloadable why) = err (exception_of why)
decode rt (loaded (obj fields)) = decode_dict rt fields
decode rt (loaded v) = err (malformed_envelope "envelope must be a JSON object")
