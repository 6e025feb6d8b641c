-- ===== src/CatalogSync/Effects.antt =====
-- What the events about promotions do to the outbox.
use festival_service.Prelude.{
  ◌∙◌, String, ◌≡◌, refl, ◌⊎◌, inl, inr, true, Option, none, some, arith, Bool-cases,
}
use festival_service.Dict.{get, set}
use festival_service.Json.{Fields, get_text}
use festival_service.Errors.{Exception, Result, ok, err, Result-cases}
use festival_service.Exec.{World, idle, begin, close_begin, in_session, query}
use festival_service.Runtime.{Runtime}
use festival_service.Call.{Settings, Call}
use festival_service.Rows.{Database, PromotionSnapshotRow}
use festival_service.Festival.{Festival, FestivalGame}
use festival_service.Snapshots.{PromotionSnapshot}
use festival_service.Repositories.Mapping.{to_promotion}
use festival_service.Repositories.Promotions
use festival_service.Repositories.Festivals
use festival_service.Text.{is_empty}
use festival_service.Service.Session.{within}
use festival_service.CatalogSync.{
  announce, record_promotion, was_already_active, record_if_known, promotion_block, promotion_event,
}
use festival_service.CatalogSync.Payload.{snapshot_of, require}

-- The session's copy after a promotion has been upserted.
abbrev pub with_promotion : PromotionSnapshot → Database → Database
with_promotion p s = record s {
  promotions =
      set p.promotion_id (Promotions.upserted (get p.promotion_id s.promotions) p) s.promotions;
}

module _ (rt : Runtime) (promotion_id : String) (d : Database) where
  to_promotion-state :
      (row : PromotionSnapshotRow) {p : PromotionSnapshot}
      → to_promotion rt row ≡ ok p
      → p.state ≡ row.state
  unfolding to_promotion
  to_promotion-state row h = ground arith

  -- A stored promotion is read with the state of its row, or not at all.
  load_found :
      (row : PromotionSnapshotRow)
      → get promotion_id d.promotions ≡ some row
      → ((p : PromotionSnapshot) × (Promotions.load rt promotion_id d ≡ ok (some p))
          × (p.state ≡ row.state))
        ⊎ ((e : Exception) × (Promotions.load rt promotion_id d ≡ err e))
  unfolding Promotions.load
  load_found row found = elim (Result-cases (to_promotion rt row)) [
    | inl (p, h) ↦ inl (p, ground arith, to_promotion-state row h)
    | inr (e, h) ↦ inr (e, ground arith)
  ]

module _ (rt : Runtime) (settings : Settings) (call : Call) (event_type : String)
    (payload : Fields) where
  -- Nothing is announced of a promotion that was active.
  announce_active :
      (game : Option FestivalGame) (p : PromotionSnapshot) (w : World)
      → announce rt settings call event_type payload game true p w ≡ (ok tt, w)
  unfolding announce
  announce_active none p w = refl
  announce_active (some g) p w = ground arith

  module _ (promotion_id festival_id game_id : String) (festival : Festival) (c s : Database) where
    abbrev recorded : Result (Unit {0}) × World
    recorded =
        record_promotion rt settings call event_type payload promotion_id festival_id game_id
          festival (within c s)

    -- A promotion is recorded, and then announced.
    pub record_announces :
        {previous : Option PromotionSnapshot} {snapshot : PromotionSnapshot}
        → Promotions.load rt promotion_id s ≡ ok previous
        → snapshot_of rt call payload promotion_id festival_id game_id ≡ ok snapshot
        → recorded
          ≡ announce rt settings call event_type payload
              (get game_id festival.games)
              (was_already_active rt previous)
              snapshot
              (within c (with_promotion snapshot s))
    unfolding record_promotion Promotions.find Promotions.upsert query in_session
    record_announces read built = rw (read, built) refl

    pub record_unread :
        {e : Exception} → Promotions.load rt promotion_id s ≡ err e → recorded ≡ (err e, within c s)
    unfolding record_promotion Promotions.find query in_session
    record_unread unread = rw unread refl

    pub record_unbuilt :
        {previous : Option PromotionSnapshot} {e : Exception}
        → Promotions.load rt promotion_id s ≡ ok previous
        → snapshot_of rt call payload promotion_id festival_id game_id ≡ err e
        → recorded ≡ (err e, within c s)
    unfolding record_promotion Promotions.find query in_session
    record_unbuilt read unbuilt = rw (read, unbuilt) refl

    -- Where the stored promotion is active, the outbox stays.
    record_active :
        (row : PromotionSnapshotRow)
        → get promotion_id s.promotions ≡ some row
        → row.state ≡ "ACTIVE"
        → (r : Result (Unit {0})) × (s' : Database) × (recorded ≡ (r, within c s'))
          × (s'.outbox ≡ s.outbox)
    unfolding was_already_active
    record_active row found active = elim (load_found rt promotion_id s row found) [
      | inl (p, read, same) ↦
          let already : was_already_active rt (some p) ≡ true = rw (same, active) refl in
          elim (Result-cases (snapshot_of rt call payload promotion_id festival_id game_id)) [
            | inl (snapshot, built) ↦ (
              ok tt,
              with_promotion snapshot s,
              record_announces read built
                  ∙ rw already (
                      announce_active (get game_id festival.games) snapshot
                        (within c (with_promotion snapshot s))),
              refl,
            )
            | inr (e, unbuilt) ↦ (err e, s, record_unbuilt read unbuilt, refl)
          ]
      | inr (e, unread) ↦ (err e, s, record_unread unread, refl)
    ]

  -- So it does for the whole block.
  block_active :
      (promotion_id festival_id game_id : String) (c s : Database) (row : PromotionSnapshotRow)
      → get promotion_id s.promotions ≡ some row
      → row.state ≡ "ACTIVE"
      → (r : Result (Unit {0})) × (s' : Database) × (promotion_block rt settings call event_type
            payload promotion_id festival_id game_id
            (within c s)
          ≡ (r, within c s'))
        × (s'.outbox ≡ s.outbox)
  unfolding promotion_block record_if_known Festivals.find query in_session
  block_active promotion_id festival_id game_id c s row found active =
      elim (Result-cases (Festivals.load festival_id s)) [
        | inl (none, unknown) ↦ (ok tt, s, rw unknown refl, refl)
        | inl (some festival, known) ↦
            let (r, s', done, same) =
              record_active promotion_id festival_id game_id festival c s row found active in
            (r, s', rw known done, same)
        | inr (e, unread) ↦ (err e, s, rw unread refl, refl)
      ]

  -- A promotion that is stored as ACTIVE is not announced again: no event about it, whatever its
  -- type and payload and whether or not it is handled without an error, adds to the outbox.
  pub promotion_event_active :
      (d : Database) (promotion_id : String) (row : PromotionSnapshotRow)
      → require rt payload "promotion_id" ≡ ok promotion_id
      → get promotion_id d.promotions ≡ some row
      → row.state ≡ "ACTIVE"
      → (promotion_event rt settings call event_type payload (idle d)).1.committed.outbox ≡ d.outbox
  unfolding promotion_event begin
  promotion_event_active d promotion_id row named found active =
      elim (Result-cases (require rt payload "game_id")) [
        | inl (game_id, game) ↦
            elim (Bool-cases (is_empty (get_text rt.repr "festival_id" payload))) [
              | inl absent ↦ rw (named, game, absent) refl
              | inr present ↦
                  let (r, s', done, same) =
                    block_active promotion_id (get_text rt.repr "festival_id" payload) game_id d d
                      row found active in
                  rw (named, game, present, done) (close r s' same)
            ]
        | inr (e, no_game) ↦ rw (named, no_game) refl
      ]
    where
      close :
          (r : Result (Unit {0})) (s' : Database)
          → s'.outbox ≡ d.outbox
          → (close_begin r (within d s')).committed.outbox ≡ d.outbox
      close (ok a) s' same = same
      close (err e) s' same = refl
