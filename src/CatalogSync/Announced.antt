-- ===== src/CatalogSync/Announced.antt =====
-- What is announced of a promotion, and why nothing is.
use festival_service.Prelude.{
  String, ◌≡◌, refl, ◌⊎◌, inl, inr, Bool, true, false, Option, none, some, arith, eq_iff,
  Bool-cases, ◌==◌,
}
use festival_service.Text.{is_empty}
use festival_service.Dict.{get}
use festival_service.Json
use festival_service.Json.{Json, text, int, null, Fields, get_text}
use festival_service.Errors.{Exception, integrity_error, Result, ok, err}
use festival_service.Runtime.{Runtime}
use festival_service.Call.{Settings, Call}
use festival_service.Rows.{Database}
use festival_service.Events
use festival_service.Outbox.{has_event}
use festival_service.Publisher
use festival_service.Festival.{Festival, FestivalGame}
use festival_service.Snapshots.{PromotionSnapshot}
use festival_service.Repositories.Promotions
use festival_service.Repositories.Festivals
use festival_service.Service.Session.{within}
use festival_service.Service.Update.{with_event}
use festival_service.CatalogSync.{announce, was_already_active, discount_payload}
use festival_service.CatalogSync.Payload.{snapshot_of, require}
use festival_service.CatalogSync.Effects.{with_promotion}

module _ (rt : Runtime) (settings : Settings) (call : Call) (event_type : String)
    (payload : Fields) where
  -- A member of the payload, or null.
  abbrev pub sent_as : String → Json
  sent_as k = elim (Json.get k payload) [ none ↦ null | some v ↦ v ]

  -- The data of DiscountApplied: the ids and the rate as they are recorded, the title of the game in
  -- the festival, and the prices and times as the catalog sent them.
  pub record Carries (p : PromotionSnapshot) (game : FestivalGame) (out : Fields) : Type 0 where
    pub festival_id : Json.get "festival_id" out ≡ some (text p.festival_id)
    pub game_id : Json.get "game_id" out ≡ some (text p.game_id)
    pub title : Json.get "title" out ≡ some (text game.title)
    pub promotion_id : Json.get "promotion_id" out ≡ some (text p.promotion_id)
    pub discount_bps : Json.get "discount_bps" out ≡ some (int p.discount_bps)
    pub list_price : Json.get "list_price" out ≡ some (sent_as "list_price")
    pub effective_price : Json.get "effective_price" out ≡ some (sent_as "effective_price")
    pub starts_at : Json.get "starts_at" out ≡ some (sent_as "starts_at")
    pub ends_at : Json.get "ends_at" out ≡ some (sent_as "ends_at")

  pub discount_payload-Carries :
      (p : PromotionSnapshot) (game : FestivalGame)
      → Carries p game (discount_payload rt payload p game)
  unfolding discount_payload Json.get
  discount_payload-Carries p game = record {
    festival_id = refl;
    game_id = refl;
    title = refl;
    promotion_id = refl;
    discount_bps = refl;
    list_price = refl;
    effective_price = refl;
    starts_at = refl;
    ends_at = refl;
  }

  -- A promotion that is not stored, or not as ACTIVE.
  pub data NotActive : Option PromotionSnapshot → Type 0 where
    not_stored : NotActive none
    inactive : (p : PromotionSnapshot) → (p.state == "ACTIVE") ≡ false → NotActive (some p)

  pub fresh-NotActive :
      (previous : Option PromotionSnapshot)
      → was_already_active rt previous ≡ false
      → NotActive previous
  unfolding was_already_active
  fresh-NotActive none h = not_stored
  fresh-NotActive (some p) h = inactive p h

  -- Why a discount was announced, and the database afterwards: the promotion is recorded and one
  -- event, with this payload, is appended to the outbox.
  pub record Announced (d d' : Database) : Type 0 where
    pub promotion_id : String
    pub game_id : String
    pub festival : Festival
    pub game : FestivalGame
    pub previous : Option PromotionSnapshot
    pub snapshot : PromotionSnapshot
    pub approved : event_type ≡ Events.catalog_promotion_approved
    pub named : require rt payload "promotion_id" ≡ ok promotion_id
    pub about : require rt payload "game_id" ≡ ok game_id
    pub known : Festivals.load (get_text rt.repr "festival_id" payload) d ≡ ok (some festival)
    pub selected : get game_id festival.games ≡ some game
    pub read : Promotions.load rt promotion_id d ≡ ok previous
    pub fresh : NotActive previous
    pub built :
        snapshot_of rt call payload promotion_id (get_text rt.repr "festival_id" payload) game_id
        ≡ ok snapshot
    pub out : Fields
    pub carried : Carries snapshot game out
    pub result :
        d'
        ≡ with_event rt settings call snapshot.festival_id
            (some (Events.discount_applied, out))
            (with_promotion snapshot d)

  -- Why no discount was announced: the event is no approval, it lacks an id or data that can be
  -- read, its festival is not stored or has not selected the game, the promotion was ACTIVE already,
  -- or the id of the new event is taken.
  pub data Unannounced (d : Database) : Type 0 where
    not_approved : (event_type == Events.catalog_promotion_approved) ≡ false → Unannounced d
    no_promotion_id : (e : Exception) → require rt payload "promotion_id" ≡ err e → Unannounced d
    no_game_id : (e : Exception) → require rt payload "game_id" ≡ err e → Unannounced d
    no_festival_id : is_empty (get_text rt.repr "festival_id" payload) ≡ true → Unannounced d
    unknown_festival :
        Festivals.load (get_text rt.repr "festival_id" payload) d ≡ ok none → Unannounced d
    unread_festival :
        (e : Exception)
        → Festivals.load (get_text rt.repr "festival_id" payload) d ≡ err e
        → Unannounced d
    not_selected :
        (game_id : String) (festival : Festival)
        → require rt payload "game_id" ≡ ok game_id
        → Festivals.load (get_text rt.repr "festival_id" payload) d ≡ ok (some festival)
        → get game_id festival.games ≡ none
        → Unannounced d
    was_active :
        (promotion_id : String) (p : PromotionSnapshot)
        → require rt payload "promotion_id" ≡ ok promotion_id
        → Promotions.load rt promotion_id d ≡ ok (some p)
        → p.state ≡ "ACTIVE"
        → Unannounced d
    unread_promotion :
        (promotion_id : String) (e : Exception)
        → require rt payload "promotion_id" ≡ ok promotion_id
        → Promotions.load rt promotion_id d ≡ err e
        → Unannounced d
    bad_snapshot :
        (promotion_id game_id : String) (e : Exception)
        → require rt payload "promotion_id" ≡ ok promotion_id
        → require rt payload "game_id" ≡ ok game_id
        → snapshot_of rt call payload promotion_id (get_text rt.repr "festival_id" payload) game_id
          ≡ err e
        → Unannounced d
    event_id_taken : has_event call.event_id d.outbox ≡ true → Unannounced d

  abbrev pub announced : PromotionSnapshot → FestivalGame → Database → Database
  announced p game s =
      with_event rt settings call p.festival_id
        (some (Events.discount_applied, discount_payload rt payload p game)) s

  -- Why the end of the block announces nothing.
  pub data Silent (selected : Option FestivalGame) (already : Bool) (s : Database) : Type 0 where
    unselected : selected ≡ none → Silent selected already s
    already_active : already ≡ true → Silent selected already s
    other_event :
        (event_type == Events.catalog_promotion_approved) ≡ false → Silent selected already s
    id_taken : has_event call.event_id s.outbox ≡ true → Silent selected already s

  pub announce_outcome :
      (selected : Option FestivalGame) (already : Bool) (p : PromotionSnapshot) (c s : Database)
      → ((r : Result (Unit {0})) × Silent selected already s
          × (announce rt settings call event_type payload selected already p (within c s)
              ≡ (r, within c s)))
        ⊎ ((game : FestivalGame) × (selected ≡ some game)
            × (event_type ≡ Events.catalog_promotion_approved)
            × (already ≡ false)
            × (announce rt settings call event_type payload selected already p (within c s)
                ≡ (ok tt, within c (announced p game s))))
  unfolding announce Publisher.enqueue
  announce_outcome none already p c s = inl (ok tt, unselected refl, refl)
  announce_outcome (some game) true p c s = inl (ok tt, already_active refl, ground arith)
  announce_outcome (some game) false p c s =
      elim (Bool-cases (event_type == Events.catalog_promotion_approved)) [
        | inl approved ↦ elim (Bool-cases (has_event call.event_id s.outbox)) [
          | inl used ↦ inl (err integrity_error, id_taken used, rw (approved, used) refl)
          | inr fresh ↦ inr (
            game,
            refl,
            (eq_iff event_type Events.catalog_promotion_approved).0 approved,
            refl,
            rw (approved, fresh) refl,
          )
        ]
        | inr other ↦ inl (ok tt, other_event other, rw other refl)
      ]
