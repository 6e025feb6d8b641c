-- ===== src/System/Sound.antt =====
-- What a database is to be at any time.
use festival_service.Prelude.{String, ◌≡◌, inl, inr, List, [], ◌∷◌, All, Bool-cases, ◌==◌}
use festival_service.Dict.{Dict, get, set}
use festival_service.Errors.{ok}
use festival_service.Json.{Fields}
use festival_service.Rows.{Database, CatalogGameRow, OutboxMessage, PromotionSnapshotRow}
use festival_service.Runtime.{Runtime}
use festival_service.Call.{Settings, Call}
use festival_service.Snapshots.{PromotionSnapshot}
use festival_service.Exec.Keeps.{Keeps, Keeps-in_session}
use festival_service.Events.{Envelope}
use festival_service.Outbox
use festival_service.Outbox.{has_event, message_of, insert_message}
use festival_service.Outbox.History.{OutboxKept, insert_message-OutboxKept}
use festival_service.Publisher
use festival_service.Repositories.CatalogGames
use festival_service.Repositories.Promotions
use festival_service.Repositories.Promotions.{upserted}
use festival_service.Repositories.Mapping.{to_promotion}
use festival_service.Snapshots.{CatalogGameSnapshot}
use festival_service.Service.Session.{DatabaseIsValid}
use festival_service.CatalogSync.Prices.{PricesAreMoney, upserted-loads}

-- Its rows are valid, and its outbox has grown from that of before.
abbrev pub Sound : Runtime → List OutboxMessage → Database → Type 0
Sound rt before d = DatabaseIsValid rt d × OutboxKept before d

set-All :
    {V : Type 0} (P : String × V → Type 0) (k : String) (v : V) (entries : Dict V)
    → ((j : String) → P (j, v))
    → All P entries
    → All P (set k v entries)
unfolding set
set-All P k v [] new old = (new k, tt)
set-All P k v ((j, w) ∷ entries) new old = elim (Bool-cases (j == k)) [
  | inl here ↦ rw here (new j, old.1)
  | inr elsewhere ↦ rw elsewhere (old.0, set-All P k v entries new old.1)
]

module _ (rt : Runtime) (before : List OutboxMessage) where
  -- The tables of the use cases are those of before, or only the copies of the catalog's games are not.
  pub games-Sound :
      (d : Database) (games : Dict CatalogGameRow)
      → Sound rt before d
      → Sound rt before (record d { catalog_games = games })
  games-Sound d games (valid, kept) =
      (record { festival_at = valid.festival_at; promotions_load = valid.promotions_load }, kept)

  pub upsert_game-Keeps :
      (g : CatalogGameSnapshot) → Keeps (Sound rt before) (CatalogGames.upsert g)
  unfolding CatalogGames.upsert
  upsert_game-Keeps g = Keeps-in_session (Sound rt before) _ (λ s h. games-Sound s _ h)

  pub upsert-Keeps :
      (p : PromotionSnapshot) → PricesAreMoney rt p → Keeps (Sound rt before) (Promotions.upsert p)
  unfolding Promotions.upsert
  upsert-Keeps p prices = Keeps-in_session (Sound rt before) _ (λ s h. (
    record {
      festival_at = h.0.festival_at;
      promotions_load =
          set-All
            (λ (e : String × PromotionSnapshotRow).
              (q : PromotionSnapshot) × (to_promotion rt e.1 ≡ ok q))
            p.promotion_id _ s.promotions
            (λ j. upserted-loads rt (get p.promotion_id s.promotions) p prices) h.0.promotions_load;
    },
    h.1,
  ))

  -- A message in the outbox leaves the other tables.
  insert_message-DatabaseIsValid :
      (topic : String) (e : Envelope) (d : Database)
      → DatabaseIsValid rt d
      → DatabaseIsValid rt (insert_message rt topic e d).1
  unfolding insert_message
  insert_message-DatabaseIsValid topic e d valid =
      elim (Bool-cases (has_event e.event_id d.outbox)) [
        | inl used ↦ rw (insert_message, used) valid
        | inr fresh ↦
            rw (insert_message, fresh)
              (record { festival_at = valid.festival_at; promotions_load = valid.promotions_load })
      ]

  pub enqueue-Sound :
      (settings : Settings) (call : Call) (event_type aggregate_type aggregate_id : String)
      (payload : Fields)
      → Keeps
          (Sound rt before)
          (Publisher.enqueue rt settings call event_type aggregate_type aggregate_id payload)
  unfolding Publisher.enqueue Outbox.enqueue
  enqueue-Sound settings call event_type aggregate_type aggregate_id payload =
      Keeps-in_session (Sound rt before) _ (λ s h.
        let e = Publisher.build settings call event_type aggregate_type aggregate_id payload in
        (
          insert_message-DatabaseIsValid settings.topic_festival_events e s h.0,
          insert_message-OutboxKept before rt settings.topic_festival_events e s h.1,
        ))
