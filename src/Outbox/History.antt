-- ===== src/Outbox/History.antt =====
-- The outbox over time: what stays of its rows, and what appending one does.
pub mod Batches
use festival_service.Prelude.{
  ℕ, ◌+◌, ◌≤◌, String, ◌≡◌, refl, inl, inr, Bool, false, some, List, [], ◌∷◌, ◌++◌, arith, eq_iff,
  Bool-cases, ◌==◌,
}
use festival_service.Json.{Fields}
use festival_service.Datetime.{Datetime}
use festival_service.Rows.{Database, OutboxMessage}
use festival_service.Runtime.{Runtime}
use festival_service.Call.{Settings, Call}
use festival_service.Events.{Envelope}
use festival_service.Exec.Keeps.{Keeps, Keeps-in_session}
use festival_service.Outbox.{has_event, message_of, insert_message, enqueue}
use festival_service.Publisher

-- The same message at a later time. Once it is published, nothing of it changes.
pub record Aged (m n : OutboxMessage) : Type 0 where
  pub id : n.id ≡ m.id
  pub event_id : n.event_id ≡ m.event_id
  pub event_type : n.event_type ≡ m.event_type
  pub topic : n.topic ≡ m.topic
  pub partition_key : n.partition_key ≡ m.partition_key
  pub envelope : n.envelope ≡ m.envelope
  pub tried : m.attempts ≤ n.attempts
  pub final : (t : Datetime) → m.published_at ≡ some t → n ≡ m

-- The rows of before, aged, in their places; new rows may follow.
abbrev pub Grown : List OutboxMessage → List OutboxMessage → Type 0
Grown [] ns = Unit
Grown (m ∷ ms) [] = ⊥
Grown (m ∷ ms) (n ∷ ns) = Aged m n × Grown ms ns

-- The ids rise, from `lo` on and below `hi`.
abbrev pub Rising : ℕ → ℕ → List OutboxMessage → Type 0
Rising lo hi [] = lo ≤ hi
Rising lo hi (m ∷ ms) = (lo ≤ m.id) × Rising (m.id + 1) hi ms

-- No two messages have one event id.
abbrev pub Unrepeated : List OutboxMessage → Type 0
Unrepeated [] = Unit
Unrepeated (m ∷ ms) = (has_event m.event_id ms ≡ false) × Unrepeated ms

pub record Kept (before rows : List OutboxMessage) (next_id : ℕ) : Type 0 where
  pub grown : Grown before rows
  pub rising : Rising 0 next_id rows
  pub unrepeated : Unrepeated rows

-- The outbox of the database has grown from `before`.
abbrev pub OutboxKept : List OutboxMessage → Database → Type 0
OutboxKept before d = Kept before d.outbox d.next_id

pub Aged-refl : (m : OutboxMessage) → Aged m m
Aged-refl m = record {
  id = refl;
  event_id = refl;
  event_type = refl;
  topic = refl;
  partition_key = refl;
  envelope = refl;
  tried = omega arith;
  final = λ t h. refl;
}

pub Grown-refl : (ms : List OutboxMessage) → Grown ms ms
Grown-refl [] = tt
Grown-refl (m ∷ ms) = (Aged-refl m, Grown-refl ms)

Grown-append :
    (before rows new : List OutboxMessage) → Grown before rows → Grown before (rows ++ new)
Grown-append [] rows new g = tt
Grown-append (m ∷ ms) (n ∷ ns) new g = (g.0, Grown-append ms ns new g.1)
Grown-append (m ∷ ms) [] new g = absurd g

Rising-append :
    (lo hi : ℕ) (rows : List OutboxMessage) (m : OutboxMessage)
    → m.id ≡ hi
    → Rising lo hi rows
    → Rising lo (hi + 1) (rows ++ m ∷ [])
Rising-append lo hi [] m e r = (omega arith, omega arith)
Rising-append lo hi (n ∷ ns) m e r = (r.0, Rising-append (n.id + 1) hi ns m e r.1)

has_event-append :
    (k : String) (rows : List OutboxMessage) (m : OutboxMessage)
    → has_event k rows ≡ false
    → (m.event_id == k) ≡ false
    → has_event k (rows ++ m ∷ []) ≡ false
unfolding has_event
has_event-append k [] m h fresh = ground arith
has_event-append k (n ∷ ns) m h fresh = ground (arith, has_event-append k ns m)

Unrepeated-append :
    (rows : List OutboxMessage) (m : OutboxMessage)
    → has_event m.event_id rows ≡ false
    → Unrepeated rows
    → Unrepeated (rows ++ m ∷ [])
unfolding has_event
Unrepeated-append [] m fresh u = (refl, tt)
Unrepeated-append (n ∷ ns) m fresh u = (
  has_event-append n.event_id ns m u.0
      (ground (arith, eq_iff n.event_id m.event_id, eq_iff m.event_id n.event_id)),
  Unrepeated-append ns m (ground arith) u.1,
)

module _ (before : List OutboxMessage) where
  pub insert_message-OutboxKept :
      (rt : Runtime) (topic : String) (e : Envelope) (d : Database)
      → OutboxKept before d
      → OutboxKept before (insert_message rt topic e d).1
  unfolding insert_message message_of
  insert_message-OutboxKept rt topic e d kept = elim (Bool-cases (has_event e.event_id d.outbox)) [
    | inl used ↦ rw used kept
    | inr fresh ↦
        let new : OutboxMessage = message_of rt d.next_id topic e in
        rw fresh (record {
          grown = Grown-append before d.outbox (new ∷ []) kept.grown;
          rising = Rising-append 0 d.next_id d.outbox new refl kept.rising;
          unrepeated = Unrepeated-append d.outbox new fresh kept.unrepeated;
        })
  ]

  pub enqueue-Keeps :
      (rt : Runtime) (settings : Settings) (call : Call) (event_type aggregate_type : String)
      (aggregate_id : String) (payload : Fields)
      → Keeps
          (OutboxKept before)
          (Publisher.enqueue rt settings call event_type aggregate_type aggregate_id payload)
  unfolding Publisher.enqueue enqueue
  enqueue-Keeps rt settings call event_type aggregate_type aggregate_id payload =
      Keeps-in_session (OutboxKept before) _ (λ s kept.
        insert_message-OutboxKept rt settings.topic_festival_events
          (Publisher.build settings call event_type aggregate_type aggregate_id payload) s kept)
