-- ===== src/Outbox/Delivery.antt =====
-- What a batch of the outbox dispatcher does and does not do.
use festival_service.Prelude.{
  ℕ, zero, suc, ◌+◌, ◌-◌, ◌≤◌, String, ◌≡◌, inl, inr, Bool, true, false, Option, none, some, List,
  [], ◌∷◌, arith, if◌then◌else◌, length, Bool-cases,
}
use festival_service.Datetime.{Datetime}
use festival_service.Rows.{OutboxMessage}
use festival_service.Outbox.Dispatcher.{
  max_attempts, is_unpublished, is_pending, settle, is_claimed, drain, sent, backlog,
}

-- How a row may change in a batch: not at all, published, or one more failed attempt.
pub data Attempted : OutboxMessage → OutboxMessage → Type 0 where
  untouched : (m : OutboxMessage) → Attempted m m
  published :
      (m : OutboxMessage) (t : Datetime)
      → is_pending m ≡ true
      → Attempted m (record m { published_at = some t })
  failed :
      (m : OutboxMessage) (error : String)
      → is_pending m ≡ true
      → Attempted m (record m { attempts = m.attempts + 1; last_error = some error })

-- Row by row.
pub data Rowwise : List OutboxMessage → List OutboxMessage → Type 0 where
  nil : Rowwise [] []
  cons :
      {m n : OutboxMessage} {ms ns : List OutboxMessage}
      → Attempted m n
      → Rowwise ms ns
      → Rowwise (m ∷ ms) (n ∷ ns)

Rowwise-refl : (rows : List OutboxMessage) → Rowwise rows rows
Rowwise-refl [] = nil
Rowwise-refl (m ∷ rows) = cons (untouched m) (Rowwise-refl rows)

-- The attempts that are left to a row, and to a table.
abbrev pub tries_of : OutboxMessage → ℕ
tries_of m = if is_unpublished m then max_attempts - m.attempts else 0

unfoldable pub tries_left : List OutboxMessage → ℕ
tries_left [] = 0
tries_left (m ∷ rows) = tries_of m + tries_left rows

module _ (send : OutboxMessage → Option String) (locked : ℕ → Bool)
    (now : OutboxMessage → Datetime) where
  settle-Attempted :
      (m : OutboxMessage) (r : Option String)
      → is_pending m ≡ true
      → Attempted m (settle send locked now m r)
  unfolding settle
  settle-Attempted m none h = published m (now m) h
  settle-Attempted m (some e) h = failed m _ h

  is_pending-is_claimed :
      (m : OutboxMessage) → is_claimed send locked now m ≡ true → is_pending m ≡ true
  unfolding is_claimed
  is_pending-is_claimed m h = ground arith

  -- A batch neither adds, removes nor reorders rows, and touches only rows that were pending: each
  -- of these is published, has one more failed attempt, or is left as it was.
  pub drain-Rowwise :
      (batch_size : ℕ) (rows : List OutboxMessage)
      → Rowwise rows (drain send locked now batch_size rows)
  unfolding drain
  drain-Rowwise zero rows = Rowwise-refl rows
  drain-Rowwise (suc limit) [] = nil
  drain-Rowwise (suc limit) (m ∷ rows) = elim (Bool-cases (is_claimed send locked now m)) [
    | inl claimed ↦ rw claimed (
        cons (settle-Attempted m (send m) (is_pending-is_claimed m claimed))
          (drain-Rowwise limit rows))
    | inr passed ↦ rw passed (cons (untouched m) (drain-Rowwise (suc limit) rows))
  ]

  -- A batch sends at most `batch_size` messages.
  length-sent-le :
      (batch_size : ℕ) (rows : List OutboxMessage)
      → length (sent send locked now batch_size rows) ≤ batch_size
  unfolding sent
  length-sent-le zero rows = omega arith
  length-sent-le (suc limit) [] = omega arith
  length-sent-le (suc limit) (m ∷ rows) =
      ground (arith, length-sent-le limit rows, length-sent-le (suc limit) rows)

  -- Each message that a batch sends uses up at least one of the attempts that are left.
  tries_left-drain :
      (batch_size : ℕ) (rows : List OutboxMessage)
      → tries_left (drain send locked now batch_size rows)
          + length (sent send locked now batch_size rows)
        ≤ tries_left rows
  unfolding drain sent tries_left
  tries_left-drain zero rows = omega arith
  tries_left-drain (suc limit) [] = omega arith
  tries_left-drain (suc limit) (m ∷ rows) =
      ground (arith, tries_left-drain limit rows, tries_left-drain (suc limit) rows)

  module _ (reliable : (m : OutboxMessage) → send m ≡ none)
      (free : (id : ℕ) → locked id ≡ false) where
    -- With a broker that accepts every message, and no other replica, a batch shrinks the backlog
    -- by its size, down to nothing.
    pub backlog-drain :
        (batch_size : ℕ) (rows : List OutboxMessage)
        → backlog (drain send locked now batch_size rows) ≡ backlog rows - batch_size
    unfolding drain backlog
    backlog-drain zero rows = omega arith
    backlog-drain (suc limit) [] = omega arith
    backlog-drain (suc limit) (m ∷ rows) =
        ground
          (arith, reliable m, free m.id, backlog-drain limit rows, backlog-drain (suc limit) rows)
