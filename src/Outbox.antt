-- ===== src/Outbox.antt =====
-- app/platform/outbox.py: the transactional outbox.
mod Tests
pub mod Dispatcher
pub mod Delivery
pub mod Rounds
pub mod History
use festival_service.Prelude.{
  ℕ, ◌+◌, String, Bool, true, false, none, List, [], ◌∷◌, ◌++◌, ◌==◌, if◌then◌else◌,
}
use festival_service.Errors.{Result, ok, err, integrity_error}
use festival_service.Exec.{Exec, in_session}
use festival_service.Rows.{Database, OutboxMessage}
use festival_service.Runtime.{Runtime}
use festival_service.Events.{Envelope, partition_key, to_dict}

-- the unique constraint on `event_id`
unfoldable pub has_event : String → List OutboxMessage → Bool
has_event event_id [] = false
has_event event_id (m ∷ ms) = if m.event_id == event_id then true else has_event event_id ms

unfoldable pub message_of : Runtime → ℕ → String → Envelope → OutboxMessage
unfolding partition_key to_dict
message_of rt id topic e = record {
  id = id;
  event_id = e.event_id;
  event_type = e.event_type;
  topic = topic;
  partition_key = partition_key e;
  envelope = to_dict rt e;
  published_at = none;
  attempts = 0;
  last_error = none;
}

unfoldable pub insert_message :
    Runtime → String → Envelope → Database → Result (Unit {0}) × Database
unfolding has_event message_of
insert_message rt topic e d = if has_event e.event_id d.outbox then (err integrity_error, d) else (
  ok tt,
  record d { outbox = d.outbox ++ message_of rt d.next_id topic e ∷ []; next_id = d.next_id + 1 },
)

-- `enqueue`. The insert is flushed when the transaction commits; every caller enqueues last, so a
-- violated constraint is raised here.
unfoldable pub enqueue : Runtime → String → Envelope → Exec (Unit {0})
unfolding insert_message in_session
enqueue rt topic e = in_session (insert_message rt topic e)
