-- ===== src/Publisher.antt =====
-- app/adapters/outbound/publisher.py: `OutboxEventPublisher`, with `EnvelopeFactory.build` of
-- app/platform/events.py. No caller gives a topic or a causation id.
use festival_service.Prelude.{String}
use festival_service.Json.{Fields}
use festival_service.Exec.{Exec}
use festival_service.Runtime.{Runtime}
use festival_service.Call.{Settings, Call}
use festival_service.Events.{Envelope, schema_version}
use festival_service.Outbox

-- `EnvelopeFactory.build`, as the publisher calls it
unfoldable pub build : Settings → Call → String → String → String → Fields → Envelope
build settings call event_type aggregate_type aggregate_id payload = record {
  event_type = event_type;
  aggregate_type = aggregate_type;
  aggregate_id = aggregate_id;
  payload = payload;
  producer = settings.service_name;
  event_id = call.event_id;
  version = schema_version;
  occurred_at = call.occurred_at;
  correlation_id = call.correlation_id;
  causation_id = "";
  trace_id = call.correlation_id;
}

unfoldable pub enqueue :
    Runtime → Settings → Call → String → String → String → Fields → Exec (Unit {0})
unfolding build Outbox.enqueue
enqueue rt settings call event_type aggregate_type aggregate_id payload =
    Outbox.enqueue rt settings.topic_festival_events
      (build settings call event_type aggregate_type aggregate_id payload)
