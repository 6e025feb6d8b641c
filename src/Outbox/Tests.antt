-- ===== src/Outbox/Tests.antt =====
-- The dispatcher at concrete tables.
use festival_service.Prelude.{
  ℕ, ◌≡◌, refl, Bool, true, false, Option, none, some, List, [], ◌∷◌, String, nat_eq, if◌then◌else◌,
}
use festival_service.Datetime.{Datetime, aware}
use festival_service.Rows.{OutboxMessage}
use festival_service.Json.{end}
use festival_service.Outbox.Dispatcher.{drain, backlog, Round, committed, raised, loop}
use festival_service.Outbox.Rounds.{IsReliable, works, fails, backlog-loop}

-- Three events of the festival f1.
abbrev message : ℕ → OutboxMessage
message id = record {
  id = id;
  event_id = "e";
  event_type = "FestivalStarted";
  topic = "festival-events";
  partition_key = "f1";
  envelope = end;
  published_at = none;
  attempts = 0;
  last_error = none;
}

abbrev table : List OutboxMessage
table = message 1 ∷ message 2 ∷ message 3 ∷ []

-- A broker that refuses the first message.
abbrev send : OutboxMessage → Option String
send m = if nat_eq m.id 1 then some "broker unreachable" else none

abbrev send_all : OutboxMessage → Option String
send_all m = none

abbrev locked : ℕ → Bool
locked id = false

abbrev now : OutboxMessage → Datetime
now m = aware 5

working : IsReliable (committed send_all locked now)
working = works send_all locked now (λ m. refl) (λ id. refl)

backlog-table : backlog table ≡ 3
unfolding backlog
backlog-table = refl

-- Two batches reach the broker, and between them the database is down.
abbrev rounds : List Round
rounds = committed send_all locked now ∷ raised ∷ committed send_all locked now ∷ []

backlog-loop_example : backlog (loop 2 rounds table).1 ≡ 0
unfolding backlog
backlog-loop_example = backlog-loop 2 rounds table (working, (fails, (working, tt)))

-- The loop sleeps after the round that raises, and after the last one.
rounds_sleep : (loop 2 rounds table).0 ≡ false ∷ true ∷ true ∷ []
unfolding loop
rounds_sleep = refl

-- The broker refuses the first event of the festival and takes the second, which gets ahead of it.
overtaken :
    drain send locked now 2 table
    ≡ record (message 1) { attempts = 1; last_error = some "broker unreachable" }
      ∷ record (message 2) { published_at = some (aware 5) }
      ∷ message 3
      ∷ []
unfolding drain festival_service.Text.take
overtaken = refl
