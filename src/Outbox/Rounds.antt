-- ===== src/Outbox/Rounds.antt =====
-- `_loop` of the outbox dispatcher, over rounds that commit and rounds that raise.
use festival_service.Prelude.{
  ℕ, ◌+◌, ◌-◌, ◌*◌, String, ◌≡◌, Bool, false, Option, none, List, [], ◌∷◌, arith, All,
}
use festival_service.Datetime.{Datetime}
use festival_service.Rows.{OutboxMessage}
use festival_service.Outbox.Dispatcher.{
  drain, backlog, drain_once, Round, committed, raised, round, loop,
}
use festival_service.Outbox.Delivery.{backlog-drain}

-- If the round commits, the broker has accepted every message, and no other replica held any.
pub data IsReliable : Round → Type 0 where
  fails : IsReliable raised
  works :
      (send : OutboxMessage → Option String) (locked : ℕ → Bool) (now : OutboxMessage → Datetime)
      → ((m : OutboxMessage) → send m ≡ none)
      → ((id : ℕ) → locked id ≡ false)
      → IsReliable (committed send locked now)

abbrev pub count_committed : List Round → ℕ
count_committed [] = 0
count_committed (raised ∷ rounds) = count_committed rounds
count_committed (committed send locked now ∷ rounds) = count_committed rounds + 1

-- Whatever rounds of the loop raise, and as often as they do: where the broker accepts every message
-- of the others and no other replica holds rows, the backlog at the end is smaller by the batch size
-- for each round that committed, down to nothing.
pub backlog-loop :
    (batch_size : ℕ) (rounds : List Round) (rows : List OutboxMessage)
    → All IsReliable rounds
    → backlog (loop batch_size rounds rows).1 ≡ backlog rows - count_committed rounds * batch_size
unfolding loop round drain_once
backlog-loop batch_size [] rows reliable = omega arith
backlog-loop batch_size (raised ∷ rounds) rows reliable =
    backlog-loop batch_size rounds rows reliable.1
backlog-loop batch_size (committed send locked now ∷ rounds) rows (works _ _ _ accepts free, rest) =
    let less = backlog-drain send locked now accepts free batch_size rows in
    let ih = backlog-loop batch_size rounds (drain send locked now batch_size rows) rest in
    rw (ih, less) (omega arith)
