-- ===== src/Service/Update.antt =====
-- The shape that the use cases of app/application/festival_service.py share: load a festival, call
-- one of its methods, save it, and enqueue at most one event, all in one transaction.
use festival_service.Prelude.{
  ℕ, ◌+◌, String, ◌≡◌, refl, ap, sym, ◌∙◌, ◌⊎◌, inl, inr, true, Option, none, some, [], ◌∷◌, ◌++◌,
  Bool-cases, Option-cases,
}
use festival_service.Json.{Fields}
use festival_service.Dict.{get}
use festival_service.Errors.{Exception, Result, ok, err, integrity_error}
use festival_service.Rows.{Database, FestivalRow, OutboxMessage}
use festival_service.Exec.{Exec, pure, lift, ◌>>=◌}
use festival_service.Runtime.{Runtime}
use festival_service.Call.{Settings, Call}
use festival_service.Events
use festival_service.Festival.{Festival}
use festival_service.Repositories.Mapping.{to_festival}
use festival_service.Repositories.Festivals
use festival_service.Repositories.Festivals.{updated_row, festival_not_found}
use festival_service.Repositories.RoundTrip.{RowIsValid, Derives, loads-fields}
use festival_service.Outbox.{has_event, message_of}
use festival_service.Publisher
use festival_service.Service.{load, publish}
use festival_service.Service.Session.{
  DatabaseIsValid, within, with_row, load_found, load_missing, save_found,
}

module _ (rt : Runtime) (settings : Settings) (call : Call) where
  -- The event that a use case enqueues, if it does.
  abbrev pub Event : Type 0
  Event = Option (String × Fields)

  unfoldable pub emit : String → Event → Exec (Unit {0})
  emit festival_id none = pure tt
  emit festival_id (some (event_type, payload)) =
      publish rt settings call event_type festival_id payload

  abbrev pub message : ℕ → String → String → Fields → OutboxMessage
  message id festival_id event_type payload =
      message_of rt id settings.topic_festival_events
        (Publisher.build settings call event_type Events.aggregate_festival festival_id payload)

  -- The session's copy with the event appended to the outbox.
  abbrev pub with_event : String → Event → Database → Database
  with_event festival_id none s = s
  with_event festival_id (some (event_type, payload)) s = record s {
    outbox = s.outbox ++ message s.next_id festival_id event_type payload ∷ [];
    next_id = s.next_id + 1;
  }

  -- The event either goes into the outbox or, its id being taken, the block raises.
  emit_outcome :
      (c s : Database) (festival_id : String) (ev : Event)
      → (has_event call.event_id s.outbox ≡ true)
          × (emit festival_id ev (within c s) ≡ (err integrity_error, within c s))
        ⊎ (emit festival_id ev (within c s) ≡ (ok tt, within c (with_event festival_id ev s)))
  unfolding emit Publisher.enqueue
  emit_outcome c s festival_id none = inr refl
  emit_outcome c s festival_id (some (event_type, payload)) =
      elim (Bool-cases (has_event call.event_id s.outbox)) [
        | inl used ↦ inl (used, rw used)
        | inr fresh ↦ inr (rw fresh)
      ]

  unfoldable pub update :
      String → (Festival → Result Festival) → (Festival → Event) → Exec (Unit {0})
  update festival_id op ev = do
    festival ← load festival_id
    festival ← lift (op festival)
    festival ← Festivals.save festival
    emit festival.id (ev festival)

  -- A block that succeeded: the festival that it found, what the method made of it, and the
  -- session's copy that it leaves.
  pub record Written (s : Database) (festival_id : String) (op : Festival → Result Festival)
      (ev : Festival → Event) (s' : Database) : Type 0 where
    pub row : FestivalRow
    pub before : Festival
    pub after : Festival
    pub found : get festival_id s.festivals ≡ some row
    pub row_valid : RowIsValid row before
    pub same_id : before.id ≡ festival_id
    pub applied : op before ≡ ok after
    pub derives : Derives before after
    pub result :
        s'
        ≡ with_event festival_id
            (ev (record after { version = after.version + 1 }))
            (with_row after row s)

  -- Why a block raised: the festival is missing, the method raised, or the event's id is taken.
  pub data Refused (s : Database) (festival_id : String) (op : Festival → Result Festival)
      (e : Exception) : Type 0 where
    missing :
        get festival_id s.festivals ≡ none
        → e ≡ festival_not_found festival_id
        → Refused s festival_id op e
    rejected :
        (row : FestivalRow) (before : Festival)
        → get festival_id s.festivals ≡ some row
        → to_festival row ≡ ok before
        → op before ≡ err e
        → Refused s festival_id op e
    taken :
        has_event call.event_id s.outbox ≡ true → e ≡ integrity_error → Refused s festival_id op e

  module _ (op : Festival → Result Festival) (ev : Festival → Event)
      (op-Derives : (f g : Festival) → op f ≡ ok g → Derives f g) (c s : Database)
      (festival_id : String) where
    abbrev pub Outcome : Type 0
    Outcome =
        ((e : Exception) × (s' : Database) × (update festival_id op ev (within c s)
            ≡ (err e, within c s'))
          × Refused s festival_id op e)
        ⊎ ((s' : Database) × (update festival_id op ev (within c s) ≡ (ok tt, within c s'))
            × Written s festival_id op ev s')

    module _ (row : FestivalRow) (f : Festival) (found : get festival_id s.festivals ≡ some row)
        (valid : RowIsValid row f) (same : f.id ≡ festival_id) where
      update_steps :
          (g : Festival)
          → op f ≡ ok g
          → update festival_id op ev (within c s)
            ≡ emit festival_id
                (ev (record g { version = g.version + 1 }))
                (within c (with_row g row s))
      unfolding update
      update_steps g applied =
          let derives = op-Derives f g applied in
          let (_, _, _, version, _) = loads-fields row f valid.loads in
          let same_g : g.id ≡ festival_id = derives.id ∙ same in
          let found_g : get g.id s.festivals ≡ some row = rw same_g found in
          let step : Festivals.save g (within c s)
              ≡ (ok (record g { version = g.version + 1 }), within c (with_row g row s)) =
            save_found c s g found_g (sym (derives.version ∙ version)) in
          rw (load_found c s festival_id found valid.loads, applied, step)
            (ap
              (λ k.
                emit k (ev (record g { version = g.version + 1 })) (within c (with_row g row s)))
              same_g)

      update_applied : (r : Result Festival) → op f ≡ r → Outcome
      unfolding update
      update_applied (err e) applied = inl (
        e,
        s,
        rw (load_found c s festival_id found valid.loads, applied),
        rejected row f found valid.loads applied,
      )
      update_applied (ok g) applied =
          let derives = op-Derives f g applied in
          let g' : Festival = record g { version = g.version + 1 } in
          let s' : Database = with_row g row s in
          let steps : update festival_id op ev (within c s)
              ≡ emit festival_id (ev g') (within c s') =
            update_steps g applied in
          elim (emit_outcome c s' festival_id (ev g')) [
            | inl (conflict, raised) ↦
                inl (integrity_error, s', steps ∙ raised, taken conflict refl)
            | inr emitted ↦ inr (
              with_event festival_id (ev g') s',
              steps ∙ emitted,
              record {
                row = row;
                before = f;
                after = g;
                found = found;
                row_valid = valid;
                same_id = same;
                applied = applied;
                derives = derives;
                result = refl;
              },
            )
          ]

      update_found : Outcome
      update_found = update_applied (op f) refl

    -- On a valid database the block raises, or writes what the method returns and its event.
    pub update_outcome : DatabaseIsValid rt s → Outcome
    unfolding update
    update_outcome valid = elim (Option-cases (get festival_id s.festivals)) [
      | inl absent ↦ inl (
        festival_not_found festival_id,
        s,
        rw (load_missing c s festival_id absent),
        missing absent refl,
      )
      | inr (row, found) ↦
          let (f, row_valid, same) = valid.festival_at festival_id row found in
          update_found row f found row_valid same
    ]
