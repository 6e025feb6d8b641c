-- ===== src/Events/RoundTrip.antt =====
-- Envelopes on the wire.
use festival_service.Prelude.{ℕ, ◌<◌, String, ◌≡◌, refl, true, false, some, [], ◌∷◌, arith}
use festival_service.Int.{pos}
use festival_service.Text.{is_empty, replace}
use festival_service.Datetime.{Datetime}
use festival_service.Json.{Json, null, int, text, obj, get, Fields, is_truthy, str}
use festival_service.Errors.{ok}
use festival_service.Runtime.{Runtime}
use festival_service.Events.{Envelope, to_dict, wire_time, optional_fields}
use festival_service.Events.Decode.{
  get_or, loaded, Received, decode, check_required, check_version, parse_time, payload_of,
}

-- What is received of an envelope.
abbrev pub received : Envelope → Datetime → Received
received e t = record {
  event_id = text e.event_id;
  event_type = text e.event_type;
  version = int (pos e.version);
  occurred_at = t;
  producer = text e.producer;
  aggregate_type = text e.aggregate_type;
  aggregate_id = text e.aggregate_id;
  correlation_id = text e.correlation_id;
  causation_id = text e.causation_id;
  trace_id = text e.trace_id;
  payload = e.payload;
}

is_empty_lem : (s : String) → is_empty s ≡ true → s ≡ ""
unfolding is_empty
is_empty_lem String.[] h = refl
is_empty_lem (String.◌∷◌ c s) h = ground arith

get_or_found :
    (k : String) (default v : Json) (fields : Fields)
    → get k fields ≡ some v
    → get_or k default fields ≡ v
get_or_found k default v fields h = rw (get_or, h) refl

module _ (rt : Runtime) (e : Envelope) where
  -- The keys that are always there.
  required_keys :
      (get "event_id" (to_dict rt e) ≡ some (text e.event_id))
      × (get "event_type" (to_dict rt e) ≡ some (text e.event_type))
      × (get "schema_version" (to_dict rt e) ≡ some (int (pos e.version)))
      × (get "occurred_at" (to_dict rt e) ≡ some (text (wire_time rt e.occurred_at)))
      × (get "producer" (to_dict rt e) ≡ some (text e.producer))
      × (get "aggregate_type" (to_dict rt e) ≡ some (text e.aggregate_type))
      × (get "aggregate_id" (to_dict rt e) ≡ some (text e.aggregate_id))
      × (get "payload" (to_dict rt e) ≡ some (obj e.payload))
  unfolding get to_dict
  required_keys = (refl, refl, refl, refl, refl, refl, refl, refl)

  -- An optional id is there or empty.
  correlation_id_key : get_or "correlation_id" (text "") (to_dict rt e) ≡ text e.correlation_id
  unfolding get to_dict optional_fields
  correlation_id_key = ground (arith, is_empty_lem e.correlation_id)

  causation_id_key : get_or "causation_id" (text "") (to_dict rt e) ≡ text e.causation_id
  unfolding get to_dict optional_fields
  causation_id_key = ground (arith, is_empty_lem e.causation_id)

  trace_id_key : get_or "trace_id" (text "") (to_dict rt e) ≡ text e.trace_id
  unfolding get to_dict optional_fields
  trace_id_key = ground (arith, is_empty_lem e.trace_id)

parsed_time :
    (rt : Runtime) (s : String) (t : Datetime)
    → rt.fromisoformat (replace "Z" "+00:00" s) ≡ some t
    → parse_time rt (text s) ≡ ok t
unfolding parse_time str
parsed_time rt s t h = rw (parse_time, h) refl

supported_version : (rt : Runtime) (n : ℕ) → 0 < n → check_version rt (int (pos n)) ≡ ok tt
unfolding check_version
supported_version rt n h = ground arith

-- An envelope whose event id, event type and aggregate id are not empty and whose version is
-- positive is read back from its own dict with every field as it was sent, the optional ids
-- included, and with the time that the reader gives for the time that was written.
pub decode-to_dict :
    (rt : Runtime) (e : Envelope) (t : Datetime)
    → is_empty e.event_id ≡ false
    → is_empty e.event_type ≡ false
    → is_empty e.aggregate_id ≡ false
    → 0 < e.version
    → is_empty (wire_time rt e.occurred_at) ≡ false
    → rt.fromisoformat (replace "Z" "+00:00" (wire_time rt e.occurred_at)) ≡ some t
    → decode rt (loaded (obj (to_dict rt e))) ≡ ok (received e t)
unfolding decode
decode-to_dict rt e t identified typed aggregate positive written read =
    let (k1, k2, k3, k4, k5, k6, k7, k8) = required_keys rt e in
    let version = get_or_found "schema_version" (int (pos 0)) _ (to_dict rt e) k3 in
    let time = get_or_found "occurred_at" null _ (to_dict rt e) k4 in
    let required : check_required ("event_id" ∷ "event_type" ∷ "aggregate_id" ∷ "occurred_at" ∷ [])
          (to_dict rt e)
        ≡ ok tt =
      unfold check_required is_truthy in
      rw (k1, identified, k2, typed, k7, aggregate, k4, written) refl in
    let supported : check_version rt (get_or "schema_version" (int (pos 0)) (to_dict rt e))
        ≡ ok tt =
      rw version (supported_version rt e.version positive) in
    let parsed : parse_time rt (get_or "occurred_at" null (to_dict rt e)) ≡ ok t =
      rw time (parsed_time rt (wire_time rt e.occurred_at) t read) in
    let carried : payload_of (get "payload" (to_dict rt e)) ≡ ok e.payload =
      unfold payload_of in rw k8 refl in
    rw
      (
        required,
        supported,
        parsed,
        carried,
        get_or_found "event_id" null _ (to_dict rt e) k1,
        get_or_found "event_type" null _ (to_dict rt e) k2,
        version,
        get_or_found "producer" (text "") _ (to_dict rt e) k5,
        get_or_found "aggregate_type" (text "") _ (to_dict rt e) k6,
        get_or_found "aggregate_id" null _ (to_dict rt e) k7,
        correlation_id_key rt e,
        causation_id_key rt e,
        trace_id_key rt e,
      )
      refl
