-- ===== src/Outbox/History/Batches.antt =====
-- The outbox over time, under the batches of the dispatcher.
use festival_service.Prelude.{
  ℕ, ◌+◌, ◌≤◌, String, ◌≡◌, refl, ap, ◌∙◌, Bool, true, Option, some, List, [], ◌∷◌, arith,
}
use festival_service.Datetime.{Datetime}
use festival_service.Rows.{OutboxMessage}
use festival_service.Outbox.{has_event}
use festival_service.Outbox.Dispatcher.{is_pending, drain}
use festival_service.Outbox.Delivery.{
  Attempted, untouched, published, failed, Rowwise, nil, cons, drain-Rowwise,
}
use festival_service.Outbox.History.{Aged, Grown, Rising, Unrepeated, Kept, Aged-refl}

-- A row that is pending may be settled in any way.
settled-Aged :
    (m : OutboxMessage) (published_at : Option Datetime) (attempts : ℕ) (last_error : Option String)
    → is_pending m ≡ true
    → m.attempts ≤ attempts
    → Aged m
        (record m { published_at = published_at; attempts = attempts; last_error = last_error })
unfolding is_pending
settled-Aged m published_at attempts last_error pending more = record {
  id = refl;
  event_id = refl;
  event_type = refl;
  topic = refl;
  partition_key = refl;
  envelope = refl;
  tried = more;
  final = λ t done. absurd (ground arith);
}

Attempted-Aged : {m n : OutboxMessage} → Attempted m n → Aged m n
Attempted-Aged (untouched m) = Aged-refl m
Attempted-Aged (published m t h) = settled-Aged m (some t) m.attempts m.last_error h (omega arith)
Attempted-Aged (failed m e h) =
    settled-Aged m m.published_at (m.attempts + 1) (some e) h (omega arith)

Aged-trans : {l m n : OutboxMessage} → Aged l m → Aged m n → Aged l n
Aged-trans {l} {m} {n} a b = record {
  id = b.id ∙ a.id;
  event_id = b.event_id ∙ a.event_id;
  event_type = b.event_type ∙ a.event_type;
  topic = b.topic ∙ a.topic;
  partition_key = b.partition_key ∙ a.partition_key;
  envelope = b.envelope ∙ a.envelope;
  tried = omega (arith, a.tried, b.tried);
  final = λ t done.
      b.final t (ap (λ (r : OutboxMessage). r.published_at) (a.final t done) ∙ done)
      ∙ a.final t done;
}

Grown-Rowwise :
    (before : List OutboxMessage) {ms ns : List OutboxMessage}
    → Rowwise ms ns
    → Grown before ms
    → Grown before ns
Grown-Rowwise [] steps g = tt
Grown-Rowwise (b ∷ bs) nil g = absurd g
Grown-Rowwise (b ∷ bs) (cons step steps) g =
    (Aged-trans g.0 (Attempted-Aged step), Grown-Rowwise bs steps g.1)

Rising-Rowwise :
    (lo hi : ℕ) {ms ns : List OutboxMessage} → Rowwise ms ns → Rising lo hi ms → Rising lo hi ns
Rising-Rowwise lo hi nil r = r
Rising-Rowwise lo hi (cons {m = m} {n = n} step steps) r =
    let same : n.id ≡ m.id = (Attempted-Aged step).id in
    rw same (r.0, Rising-Rowwise (m.id + 1) hi steps r.1)

has_event-Rowwise :
    (k : String) {ms ns : List OutboxMessage} → Rowwise ms ns → has_event k ns ≡ has_event k ms
unfolding has_event
has_event-Rowwise k nil = refl
has_event-Rowwise k (cons step steps) =
    rw ((Attempted-Aged step).event_id, has_event-Rowwise k steps) refl

Unrepeated-Rowwise : {ms ns : List OutboxMessage} → Rowwise ms ns → Unrepeated ms → Unrepeated ns
Unrepeated-Rowwise nil u = tt
Unrepeated-Rowwise (cons {m = m} {ns = ns} step steps) u = (
  ap (λ k. has_event k ns) (Attempted-Aged step).event_id
      ∙ has_event-Rowwise m.event_id steps
      ∙ u.0,
  Unrepeated-Rowwise steps u.1,
)

-- A batch of the dispatcher.
pub drain-Kept :
    (before rows : List OutboxMessage) (next_id : ℕ) (send : OutboxMessage → Option String)
    (locked : ℕ → Bool) (now : OutboxMessage → Datetime) (batch_size : ℕ)
    → Kept before rows next_id
    → Kept before (drain send locked now batch_size rows) next_id
drain-Kept before rows next_id send locked now batch_size kept =
    let steps = drain-Rowwise send locked now batch_size rows in
    record {
      grown = Grown-Rowwise before steps kept.grown;
      rising = Rising-Rowwise 0 next_id steps kept.rising;
      unrepeated = Unrepeated-Rowwise steps kept.unrepeated;
    }
