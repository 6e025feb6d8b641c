-- ===== src/Events/Refusals.antt =====
-- What `Envelope.decode` raises.
use festival_service.Prelude.{
  String, ◌≡◌, refl, ◌⊎◌, inl, inr, Bool, true, false, List, [], ◌∷◌, Option, arith,
}
use festival_service.Json.{Json, null, bool, int, float, text, arr, obj, Fields, get}
use festival_service.Int.{pos}
use festival_service.Errors.{Exception, err, malformed_envelope}
use festival_service.Runtime.{Runtime}
use festival_service.Events.Decode.{
  Loaded, Unloadable, loaded, not_json, unloadable, exception_of, decode, decode_dict,
  check_required, check_version, parse_time, payload_of, get_or,
}

-- The exception is a MalformedEnvelope.
abbrev pub is_malformed : Exception → Bool
is_malformed (malformed_envelope m) = true
is_malformed _ = false

check_required-raises :
    (ks : List String) (fields : Fields) {e : Exception}
    → check_required ks fields ≡ err e
    → is_malformed e ≡ true
unfolding check_required
check_required-raises [] fields h = ground arith
check_required-raises (k ∷ ks) fields {e} h =
    ground (arith, check_required-raises ks fields {e = e})

check_version-raises :
    (rt : Runtime) (v : Json) {e : Exception} → check_version rt v ≡ err e → is_malformed e ≡ true
unfolding check_version
check_version-raises rt v h = ground arith

parse_time-raises :
    (rt : Runtime) (v : Json) {e : Exception} → parse_time rt v ≡ err e → is_malformed e ≡ true
unfolding parse_time
parse_time-raises rt v h = ground arith

payload_of-raises : (v : Option Json) {e : Exception} → payload_of v ≡ err e → is_malformed e ≡ true
unfolding payload_of
payload_of-raises v h = ground arith

decode_dict-raises :
    (rt : Runtime) (fields : Fields) {e : Exception}
    → decode_dict rt fields ≡ err e
    → is_malformed e ≡ true
unfolding decode_dict
decode_dict-raises rt fields h = ground (
  arith,
  check_required-raises ("event_id" ∷ "event_type" ∷ "aggregate_id" ∷ "occurred_at" ∷ []) fields,
  check_version-raises rt (get_or "schema_version" (int (pos 0)) fields),
  parse_time-raises rt (get_or "occurred_at" null fields),
  payload_of-raises (get "payload" fields),
)

-- `decode` raises nothing but MalformedEnvelope, save where `json.loads` raises what is no
-- JSONDecodeError, for bytes that are no text, an integer of too many digits, a value that is nested
-- too deeply, or no bytes at all: that exception it lets through.
pub decode-raises :
    (rt : Runtime) (l : Loaded) {e : Exception}
    → decode rt l ≡ err e
    → (is_malformed e ≡ true) ⊎ ((why : Unloadable) × (l ≡ unloadable why) × (e ≡ exception_of why))
unfolding decode
decode-raises rt (not_json exc) h = inl (ground arith)
decode-raises rt (unloadable why) h = inr (why, refl, ground arith)
decode-raises rt (loaded null) h = inl (ground arith)
decode-raises rt (loaded (bool b)) h = inl (ground arith)
decode-raises rt (loaded (int n)) h = inl (ground arith)
decode-raises rt (loaded (float s)) h = inl (ground arith)
decode-raises rt (loaded (text s)) h = inl (ground arith)
decode-raises rt (loaded (arr xs)) h = inl (ground arith)
decode-raises rt (loaded (obj fields)) h = inl (decode_dict-raises rt fields h)
