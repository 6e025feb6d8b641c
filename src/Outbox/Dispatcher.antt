-- ===== src/Outbox/Dispatcher.antt =====
-- `Dispatcher` of app/platform/outbox.py: one batch, and the backlog. The broker is the parameter
-- `send`, which gives the text of the exception that sending a message raises, if it does; `locked`
-- tells the rows that other replicas hold, which `SKIP LOCKED` passes over; `now` is the clock when
-- a message has been sent.
use festival_service.Prelude.{
  ℕ, zero, suc, ◌+◌, String, Bool, true, false, not, ◌&&◌, Option, none, some, List, [], ◌∷◌, ltb,
  if◌then◌else◌,
}
use festival_service.Text
use festival_service.Datetime.{Datetime}
use festival_service.Rows.{OutboxMessage}

abbrev pub max_attempts : ℕ
max_attempts = 10

abbrev pub is_unpublished : OutboxMessage → Bool
is_unpublished m = elim m.published_at [ none ↦ true | some t ↦ false ]

-- `published_at IS NULL AND attempts < MAX_ATTEMPTS`
unfoldable pub is_pending : OutboxMessage → Bool
is_pending m = is_unpublished m && ltb m.attempts max_attempts

module _ (send : OutboxMessage → Option String) (locked : ℕ → Bool)
    (now : OutboxMessage → Datetime) where
  -- The `except` branch and the branch after it.
  unfoldable pub settle : OutboxMessage → Option String → OutboxMessage
  settle m none = record m { published_at = some (now m) }
  settle m (some error) = record m {
    attempts = m.attempts + 1;
    last_error = some (Text.take 1000 error);
  }

  unfoldable pub is_claimed : OutboxMessage → Bool
  unfolding is_pending
  is_claimed m = is_pending m && not (locked m.id)

  -- The table after one batch: in the order of the ids, the first rows that the query selects, up
  -- to the limit, are sent and settled.
  unfoldable pub drain : ℕ → List OutboxMessage → List OutboxMessage
  unfolding is_claimed settle
  drain zero rows = rows
  drain (suc limit) [] = []
  drain (suc limit) (m ∷ rows) =
      let attempted = settle m (send m) ∷ drain limit rows in
      let passed = m ∷ drain (suc limit) rows in if is_claimed m then attempted else passed

  -- The messages that the batch sends, in order.
  unfoldable pub sent : ℕ → List OutboxMessage → List OutboxMessage
  unfolding is_claimed
  sent zero rows = []
  sent (suc limit) [] = []
  sent (suc limit) (m ∷ rows) =
      let attempted = m ∷ sent limit rows in
      let passed = sent (suc limit) rows in if is_claimed m then attempted else passed

  unfoldable pub count_sent : List OutboxMessage → ℕ
  count_sent [] = 0
  count_sent (m ∷ rows) =
      let rest = count_sent rows in elim (send m) [ none ↦ suc rest | some e ↦ rest ]

  -- `drain_once` returns how many were published.
  unfoldable pub drain_once : ℕ → List OutboxMessage → ℕ × List OutboxMessage
  unfolding drain sent count_sent
  drain_once batch_size rows = (count_sent (sent batch_size rows), drain batch_size rows)

-- How one round of `_loop` ends: the batch commits, with these answers, locks and times; or it
-- raises, and its transaction is rolled back.
pub data Round : Type 0 where
  committed :
      (send : OutboxMessage → Option String) (locked : ℕ → Bool) (now : OutboxMessage → Datetime)
      → Round
  raised : Round

-- `published`, and the table
unfoldable pub round : ℕ → Round → List OutboxMessage → ℕ × List OutboxMessage
unfolding drain_once
round batch_size (committed send locked now) rows = drain_once send locked now batch_size rows
round batch_size raised rows = (0, rows)

-- `_loop`, for so many rounds: whether it sleeps after each of them, and the table.
unfoldable pub loop : ℕ → List Round → List OutboxMessage → List Bool × List OutboxMessage
unfolding round
loop batch_size [] rows = ([], rows)
loop batch_size (r ∷ rounds) rows =
    let (published, rows') = round batch_size r rows in
    let (sleeps, end) = loop batch_size rounds rows' in (ltb published batch_size ∷ sleeps, end)

-- `backlog`
unfoldable pub backlog : List OutboxMessage → ℕ
unfolding is_pending
backlog [] = 0
backlog (m ∷ rows) = let rest = backlog rows in if is_pending m then suc rest else rest
