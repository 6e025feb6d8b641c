-- ===== src/CatalogSync.antt =====
-- app/application/catalog_sync_service.py: the read-models that Catalog's events feed, and the
-- announcement of a discount.
pub mod Payload
pub mod Prices
pub mod Effects
pub mod Announced
pub mod Announcement
mod Tests
use Payload.{require, snapshot_of}
use festival_service.Prelude.{
  String, Bool, true, false, not, ◌&&◌, Option, none, some, List, [], ◌∷◌, ◌==◌, if◌then◌else◌,
}
use festival_service.Int.{ℤ, pos}
use festival_service.Text.{is_empty, f_string, replace}
use festival_service.Text.Number.{int_of_str}
use festival_service.Datetime.{Datetime}
use festival_service.Dict
use festival_service.Json
use festival_service.Json.{
  Json, Fields, end, field, null, bool, int, float, text, arr, obj, is_truthy, str, get_text,
}
use festival_service.Errors
use festival_service.Errors.{
  Exception, Result, ok, err, invalid_argument, money_error, value_error, type_error,
}
use festival_service.Exec.{Exec, pure, lift, ◌>>=◌, ◌>>◌, begin}
use festival_service.Runtime.{Runtime}
use festival_service.Call.{Settings, Call}
use festival_service.Money
use festival_service.Money.{Money}
use festival_service.Festival.{Festival, FestivalGame}
use festival_service.Snapshots.{CatalogGameSnapshot, PromotionSnapshot, is_active}
use festival_service.Repositories.CatalogGames
use festival_service.Repositories.Festivals
use festival_service.Repositories.Promotions
use festival_service.Events
use festival_service.Publisher

-- `payload.get(k)`, as a value to send on
abbrev or_null : Option Json → Json
or_null none = null
or_null (some v) = v

module _ (rt : Runtime) where
  unfoldable pub game_published : Call → Fields → Exec (Unit {0})
  unfolding require begin CatalogGames.upsert
  game_published call payload = do
    game_id ← lift (require rt payload "game_id")
    begin (
        CatalogGames.upsert (record {
          game_id = game_id;
          title = get_text rt.repr "title" payload;
          developer_id = get_text rt.repr "developer_id" payload;
          published = true;
          updated_at = call.now;
        }))

  -- The snapshot that a withdrawal and a relisting write over what is known.
  abbrev pub relisted : Call → String → Bool → Option CatalogGameSnapshot → CatalogGameSnapshot
  relisted call game_id published existing = record {
    game_id = game_id;
    title = elim existing [ none ↦ "" | some g ↦ g.title ];
    developer_id = elim existing [ none ↦ "" | some g ↦ g.developer_id ];
    published = published;
    updated_at = call.now;
  }

  unfoldable pub game_withdrawn : Call → Fields → Exec (Unit {0})
  unfolding require begin CatalogGames.find CatalogGames.upsert
  game_withdrawn call payload = do
    game_id ← lift (require rt payload "game_id")
    begin (do
      existing ← CatalogGames.find game_id
      CatalogGames.upsert (relisted call game_id false existing))

  unfoldable pub game_relisted : Call → Fields → Exec (Unit {0})
  unfolding require begin CatalogGames.find CatalogGames.upsert
  game_relisted call payload = do
    game_id ← lift (require rt payload "game_id")
    begin (do
      existing ← CatalogGames.find game_id
      CatalogGames.upsert (relisted call game_id true existing))

  -- `game_updated` with a title that is not `None`
  unfoldable pub retitle : Call → Fields → String → Json → Exec (Unit {0})
  unfolding begin CatalogGames.find CatalogGames.upsert str get_text
  retitle call payload game_id title = begin (do
    existing ← CatalogGames.find game_id
    CatalogGames.upsert (record {
      game_id = game_id;
      title = str rt.repr title;
      developer_id = elim existing [
        | none ↦ get_text rt.repr "developer_id" payload
        | some g ↦ g.developer_id
      ];
      published = elim existing [ none ↦ false | some g ↦ g.published ];
      updated_at = call.now;
    }))

  unfoldable pub retitle_unless_none : Call → Fields → String → Option Json → Exec (Unit {0})
  unfolding retitle
  retitle_unless_none call payload game_id none = pure tt
  retitle_unless_none call payload game_id (some null) = pure tt
  retitle_unless_none call payload game_id (some title) = retitle call payload game_id title

  unfoldable pub game_updated : Call → Fields → Exec (Unit {0})
  unfolding require retitle_unless_none Json.get
  game_updated call payload = do
    game_id ← lift (require rt payload "game_id")
    retitle_unless_none call payload game_id (Json.get "title" payload)

  -- `previous is not None and previous.state == "ACTIVE"`
  unfoldable pub was_already_active : Option PromotionSnapshot → Bool
  was_already_active none = false
  was_already_active (some p) = p.state == "ACTIVE"

  unfoldable pub discount_payload : Fields → PromotionSnapshot → FestivalGame → Fields
  unfolding Json.get
  discount_payload payload p game = field "festival_id" (text p.festival_id) (
      field "game_id" (text p.game_id) (
        field "title" (text game.title) (
          field "promotion_id" (text p.promotion_id) (
            field "discount_bps" (int p.discount_bps) (
              field "list_price" (or_null (Json.get "list_price" payload)) (
                field "effective_price" (or_null (Json.get "effective_price" payload)) (
                  field "starts_at" (or_null (Json.get "starts_at" payload))
                    (field "ends_at" (or_null (Json.get "ends_at" payload)) end))))))))

  module _ (settings : Settings) where
    -- The end of `promotion_event`: the announcement, if the promotion is newly active and its
    -- game is one of the festival's.
    unfoldable pub announce :
        Call → String → Fields → Option FestivalGame → Bool → PromotionSnapshot → Exec (Unit {0})
    unfolding discount_payload Publisher.enqueue
    announce call event_type payload none already p = pure tt
    announce call event_type payload (some game) already p =
        if event_type == Events.catalog_promotion_approved && not already
        then Publisher.enqueue rt settings call Events.discount_applied Events.aggregate_festival
            p.festival_id (discount_payload payload p game)
        else pure tt

    -- The block of `promotion_event` from the second read on, for a festival that is known.
    unfoldable pub record_promotion :
        Call → String → Fields → String → String → String → Festival → Exec (Unit {0})
    unfolding Promotions.find snapshot_of Promotions.upsert was_already_active announce Dict.get
    record_promotion call event_type payload promotion_id festival_id game_id festival = do
      previous ← Promotions.find rt promotion_id
      snapshot ← lift (snapshot_of rt call payload promotion_id festival_id game_id)
      Promotions.upsert snapshot
      announce call event_type payload (Dict.get game_id festival.games)
          (was_already_active previous) snapshot

    unfoldable pub record_if_known :
        Call → String → Fields → String → String → String → Option Festival → Exec (Unit {0})
    unfolding record_promotion
    record_if_known call event_type payload promotion_id festival_id game_id none = pure tt
    record_if_known call event_type payload promotion_id festival_id game_id (some festival) =
        record_promotion call event_type payload promotion_id festival_id game_id festival

    unfoldable pub promotion_block :
        Call → String → Fields → String → String → String → Exec (Unit {0})
    unfolding Festivals.find record_if_known
    promotion_block call event_type payload promotion_id festival_id game_id = do
      festival ← Festivals.find festival_id
      record_if_known call event_type payload promotion_id festival_id game_id festival

    unfoldable pub promotion_event : Call → String → Fields → Exec (Unit {0})
    unfolding require begin promotion_block get_text
    promotion_event call event_type payload = do
      promotion_id ← lift (require rt payload "promotion_id")
      game_id ← lift (require rt payload "game_id")
      let festival_id = get_text rt.repr "festival_id" payload
      if is_empty festival_id
          then pure tt
          else begin (promotion_block call event_type payload promotion_id festival_id game_id)
