-- ===== src/Events/Tests.antt =====
-- Envelopes at concrete inputs.
use festival_service.Prelude.{◌≡◌, refl, ◌⊎◌, true, some, none, arith}
use festival_service.Datetime.{aware}
use festival_service.Json.{end, field, text, obj}
use festival_service.Errors.{ok, err, runtime_error}
use festival_service.Runtime.{Runtime}
use festival_service.Events.{Envelope, to_dict, festival_started}
use festival_service.Events.Decode.{loaded, too_deep, Unloadable, unloadable, exception_of, decode}
use festival_service.Events.RoundTrip.{received, decode-to_dict}
use festival_service.Events.Refusals.{is_malformed, decode-raises}

abbrev rt : Runtime
rt = record {
  upper = λ s. s;
  is_alpha = λ c. true;
  repr = λ v. "";
  isoformat = λ t. "2026-07-27T12:00:00+00:00";
  fromisoformat = λ s. some (aware 5);
  int_of_float = λ s. none;
}

abbrev envelope : Envelope
envelope = record {
  event_type = festival_started;
  aggregate_type = "festival";
  aggregate_id = "f1";
  payload = field "name" (text "Summer") end;
  producer = "festival-service";
  event_id = "e1";
  version = 1;
  occurred_at = aware 5;
  correlation_id = "c1";
  causation_id = "";
  trace_id = "c1";
}

decode-to_dict_example :
    decode rt (loaded (obj (to_dict rt envelope))) ≡ ok (received envelope (aware 5))
unfolding festival_service.Text.is_empty festival_service.Events.wire_time
decode-to_dict_example = decode-to_dict rt envelope (aware 5) refl refl refl (omega arith) refl refl

undecodable : decode rt (unloadable too_deep) ≡ err runtime_error
unfolding decode
undecodable = refl

decode-raises_example :
    (is_malformed runtime_error ≡ true)
    ⊎ ((why : Unloadable) × (unloadable too_deep ≡ unloadable why)
        × (runtime_error ≡ exception_of why))
decode-raises_example = decode-raises rt (unloadable too_deep) undecodable
