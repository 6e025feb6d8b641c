-- ===== src/Service/Carried.antt =====
-- What a use case of app/application/festival_service.py leaves in the database when its block has
-- succeeded.
use festival_service.Prelude.{
  ℕ, ◌+◌, String, ◌≡◌, refl, ap, subst, sym, ◌∙◌, inl, inr, none, some, List, [], ◌∷◌, ◌++◌, eq_iff,
  ◌==◌, if◌then◌else◌, Bool-cases,
}
use mathlib.Core.List.{append-nil}
use festival_service.Dict.{get}
use festival_service.Dict.Laws.{get-set}
use festival_service.Errors.{ok}
use festival_service.Runtime.{Runtime}
use festival_service.Call.{Settings, Call}
use festival_service.Rows.{Database, FestivalRow, OutboxMessage}
use festival_service.Festival.{Festival}
use festival_service.Festival.Commands.{Command, apply}
use festival_service.Festival.Invariant.{IsValid, apply-IsValid}
use festival_service.Repositories.Mapping.{to_festival}
use festival_service.Repositories.Festivals.{updated_row}
use festival_service.Repositories.RoundTrip.{
  RowIsValid, SameFestival, saved, updated_row-RowIsValid,
}
use festival_service.Service.Session.{DatabaseIsValid, with_row}
use festival_service.Service.Update.{Event, message, with_event, Written}

-- The rows that an event adds to the outbox.
module _ (rt : Runtime) (settings : Settings) (call : Call) where
  abbrev pub rows_of : ℕ → String → Event rt settings call → List OutboxMessage
  rows_of id festival_id none = []
  rows_of id festival_id (some (event_type, payload)) =
      message rt settings call id festival_id event_type payload ∷ []

  -- What `with_event` changes.
  module _ (festival_id : String) (s : Database) where
    with_event-festivals :
        (e : Event rt settings call)
        → (with_event rt settings call festival_id e s).festivals ≡ s.festivals
    with_event-festivals none = refl
    with_event-festivals (some e) = refl

    with_event-catalog_games :
        (e : Event rt settings call)
        → (with_event rt settings call festival_id e s).catalog_games ≡ s.catalog_games
    with_event-catalog_games none = refl
    with_event-catalog_games (some e) = refl

    with_event-promotions :
        (e : Event rt settings call)
        → (with_event rt settings call festival_id e s).promotions ≡ s.promotions
    with_event-promotions none = refl
    with_event-promotions (some e) = refl

    with_event-outbox :
        (e : Event rt settings call)
        → (with_event rt settings call festival_id e s).outbox
          ≡ s.outbox ++ rows_of s.next_id festival_id e
    with_event-outbox none = sym (append-nil s.outbox)
    with_event-outbox (some e) = refl

  module _ (festival_id : String) (c : Command) (ev : Festival → Event rt settings call) where
    -- From `d` to `d'` the festival has gone through the command and its event is in the outbox.
    pub record Carried (d d' : Database) : Type 0 where
      pub row : FestivalRow
      pub row' : FestivalRow
      pub before : Festival
      pub after : Festival
      pub reloaded : Festival
      pub found : get festival_id d.festivals ≡ some row
      pub loads : to_festival row ≡ ok before
      pub applied : apply before c ≡ ok after
      pub loads' : to_festival row' ≡ ok reloaded
      pub same : SameFestival reloaded (record after { version = before.version + 1 })
      pub festivals :
          (k : String)
          → get k d'.festivals ≡ (if festival_id == k then some row' else get k d.festivals)
      pub catalog_games : d'.catalog_games ≡ d.catalog_games
      pub promotions : d'.promotions ≡ d.promotions
      pub outbox :
          d'.outbox
          ≡ d.outbox
            ++ rows_of d.next_id festival_id (ev (record after { version = before.version + 1 }))

    module _ (d d' : Database) (valid : DatabaseIsValid rt d)
        (w : Written rt settings call d festival_id (λ f. apply f c) ev d') where
      after-IsValid : IsValid w.after
      after-IsValid = apply-IsValid w.before c w.row_valid.valid w.applied

      written :
          RowIsValid (updated_row w.after w.row) (saved w.after w.row)
          × SameFestival (saved w.after w.row) (record w.after { version = w.after.version + 1 })
      written = updated_row-RowIsValid w.row w.before w.after w.row_valid w.derives after-IsValid

      event : Event rt settings call
      event = ev (record w.after { version = w.after.version + 1 })

      Written-festivals :
          (k : String)
          → get k d'.festivals
            ≡ (if festival_id == k then some (updated_row w.after w.row) else get k d.festivals)
      unfolding event
      Written-festivals k =
          let row' = updated_row w.after w.row in
          let same_id : w.after.id ≡ festival_id = w.derives.id ∙ w.same_id in
          ap (λ x. get k x.festivals) w.result
          ∙ ap (get k) (with_event-festivals festival_id (with_row w.after w.row d) event)
          ∙ get-set k w.after.id row' d.festivals
          ∙ ap (λ j. if j == k then some row' else get k d.festivals) same_id

      pub Written-Carried : Carried d d'
      unfolding event
      Written-Carried = record {
        row = w.row;
        row' = updated_row w.after w.row;
        before = w.before;
        after = w.after;
        reloaded = saved w.after w.row;
        found = w.found;
        loads = w.row_valid.loads;
        applied = w.applied;
        loads' = written.0.loads;
        same = rw (← w.derives.version) written.1;
        festivals = Written-festivals;
        catalog_games =
            ap (λ x. x.catalog_games) w.result
            ∙ with_event-catalog_games festival_id (with_row w.after w.row d) event;
        promotions =
            ap (λ x. x.promotions) w.result
            ∙ with_event-promotions festival_id (with_row w.after w.row d) event;
        outbox = rw (← w.derives.version) (
            ap (λ x. x.outbox) w.result
            ∙ with_event-outbox festival_id (with_row w.after w.row d) event);
      }

      Written-festival_at :
          (k : String) (row : FestivalRow)
          → get k d'.festivals ≡ some row
          → (f : Festival) × RowIsValid row f × (f.id ≡ k)
      Written-festival_at k row found = elim (Bool-cases (festival_id == k)) [
        | inl here ↦
            let stored : some (updated_row w.after w.row) ≡ some row =
              rw (Written-festivals k, here) at found in
            let same_row : updated_row w.after w.row ≡ row = cc in
            (
              saved w.after w.row,
              subst (λ r. RowIsValid r (saved w.after w.row)) same_row written.0,
              w.derives.id ∙ w.same_id ∙ (eq_iff festival_id k).0 here,
            )
        | inr elsewhere ↦ valid.festival_at k row (rw (Written-festivals k, elsewhere) at found)
      ]

      pub Written-IsValid : DatabaseIsValid rt d'
      Written-IsValid = record {
        festival_at = Written-festival_at;
        promotions_load = rw Written-Carried.promotions valid.promotions_load;
      }
