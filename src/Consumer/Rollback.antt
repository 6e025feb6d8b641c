-- ===== src/Consumer/Rollback.antt =====
-- What the handlers of the catalog's events leave when they raise.
use festival_service.Prelude.{
  String, ◌≡◌, refl, Bool, true, false, none, some, Option, if◌then◌else◌, ◌==◌, ◌&&◌, not,
}
use festival_service.Text.{is_empty}
use festival_service.Json
use festival_service.Json.{Json, null, Fields, get_text}
use festival_service.Errors.{Exception, Result, ok, err}
use festival_service.Exec.{Exec, idle, query, begin, pure, lift, ◌>>=◌}
use festival_service.Exec.UnitOfWork.{
  InSession, begin_rollback, InSession-lift, InSession-bind, InSession-in_session,
}
use festival_service.Outbox
use festival_service.Publisher
use festival_service.Events
use festival_service.Festival.{Festival, FestivalGame}
use festival_service.Runtime.{Runtime}
use festival_service.Call.{Settings, Call}
use festival_service.Rows.{Database}
use festival_service.Snapshots.{CatalogGameSnapshot, PromotionSnapshot}
use festival_service.Repositories.CatalogGames
use festival_service.Repositories.Festivals
use festival_service.Repositories.Promotions
use festival_service.CatalogSync
use festival_service.CatalogSync.Payload.{require, snapshot_of}

-- An action that raises in no transaction leaves the database as it was.
pub record RollsBack (m : Exec (Unit {0})) : Type 0 where
  pub at : (d : Database) (e : Exception) → (m (idle d)).0 ≡ err e → (m (idle d)).1 ≡ idle d

begin-RollsBack : (m : Exec (Unit {0})) → InSession m → RollsBack (begin m)
begin-RollsBack m k = record { at = λ d e h. begin_rollback m d k h }

-- A value that is required first.
lift-RollsBack :
    {A : Type 0} (r : Result A) (f : A → Exec (Unit {0}))
    → ((a : A) → RollsBack (f a))
    → RollsBack (lift r >>= f)
lift-RollsBack (ok a) f k = k a
lift-RollsBack (err e) f k = record { at = λ d e' h. refl }

upsert-InSession : (g : CatalogGameSnapshot) → InSession (CatalogGames.upsert g)
unfolding CatalogGames.upsert
upsert-InSession g = InSession-in_session _

find-InSession : (k : String) → InSession (CatalogGames.find k)
unfolding CatalogGames.find query
find-InSession k = InSession-in_session _

pure-RollsBack : RollsBack (pure tt)
pure-RollsBack = record { at = λ d e h. refl }

if-RollsBack :
    (b : Bool) {m n : Exec (Unit {0})} → RollsBack m → RollsBack n → RollsBack (if b then m else n)
if-RollsBack true km kn = km
if-RollsBack false km kn = kn

if-InSession :
    (b : Bool) {m n : Exec (Unit {0})} → InSession m → InSession n → InSession (if b then m else n)
if-InSession true km kn = km
if-InSession false km kn = kn

module _ (rt : Runtime) (call : Call) (payload : Fields) where
  pub game_published-RollsBack : RollsBack (CatalogSync.game_published rt call payload)
  unfolding CatalogSync.game_published
  game_published-RollsBack = lift-RollsBack _ _ (λ game_id. begin-RollsBack _ (upsert-InSession _))

  pub game_withdrawn-RollsBack : RollsBack (CatalogSync.game_withdrawn rt call payload)
  unfolding CatalogSync.game_withdrawn
  game_withdrawn-RollsBack = lift-RollsBack _ _ (λ game_id.
      begin-RollsBack _ (InSession-bind _ _ (find-InSession game_id) (λ g. upsert-InSession _)))

  pub game_relisted-RollsBack : RollsBack (CatalogSync.game_relisted rt call payload)
  unfolding CatalogSync.game_relisted
  game_relisted-RollsBack = lift-RollsBack _ _ (λ game_id.
      begin-RollsBack _ (InSession-bind _ _ (find-InSession game_id) (λ g. upsert-InSession _)))

  retitle-RollsBack :
      (game_id : String) (title : Json)
      → RollsBack (CatalogSync.retitle rt call payload game_id title)
  unfolding CatalogSync.retitle
  retitle-RollsBack game_id title =
      begin-RollsBack _ (InSession-bind _ _ (find-InSession game_id) (λ g. upsert-InSession _))

  retitle_unless_none-RollsBack :
      (game_id : String) (title : Option Json)
      → RollsBack (CatalogSync.retitle_unless_none rt call payload game_id title)
  unfolding CatalogSync.retitle_unless_none
  retitle_unless_none-RollsBack game_id none = pure-RollsBack
  retitle_unless_none-RollsBack game_id (some null) = pure-RollsBack
  retitle_unless_none-RollsBack game_id (some title) = retitle-RollsBack game_id title

  pub game_updated-RollsBack : RollsBack (CatalogSync.game_updated rt call payload)
  unfolding CatalogSync.game_updated
  game_updated-RollsBack =
      lift-RollsBack (require rt payload "game_id") _
        (λ game_id. retitle_unless_none-RollsBack game_id (Json.get "title" payload))

module _ (rt : Runtime) (settings : Settings) (call : Call) (event_type : String)
    (payload : Fields) where
  announce-InSession :
      (game : Option FestivalGame) (already : Bool) (p : PromotionSnapshot)
      → InSession (CatalogSync.announce rt settings call event_type payload game already p)
  unfolding CatalogSync.announce Publisher.enqueue Outbox.enqueue
  announce-InSession none already p = InSession-lift (ok tt)
  announce-InSession (some game) already p =
      if-InSession (event_type == Events.catalog_promotion_approved && not already)
        (InSession-in_session _) (InSession-lift (ok tt))

  record-InSession :
      (promotion_id festival_id game_id : String) (festival : Festival)
      → InSession (
          CatalogSync.record_promotion rt settings call event_type payload promotion_id festival_id
            game_id festival)
  unfolding CatalogSync.record_promotion Promotions.find Promotions.upsert query
  record-InSession promotion_id festival_id game_id festival =
      InSession-bind _ _ (InSession-in_session _) (λ previous.
        InSession-bind _ _
          (InSession-lift (snapshot_of rt call payload promotion_id festival_id game_id))
          (λ snapshot.
            InSession-bind _ _ (InSession-in_session _) (λ done. announce-InSession _ _ snapshot)))

  known-InSession :
      (promotion_id festival_id game_id : String) (festival : Option Festival)
      → InSession (
          CatalogSync.record_if_known rt settings call event_type payload promotion_id festival_id
            game_id festival)
  unfolding CatalogSync.record_if_known
  known-InSession promotion_id festival_id game_id none = InSession-lift (ok tt)
  known-InSession promotion_id festival_id game_id (some festival) =
      record-InSession promotion_id festival_id game_id festival

  block-InSession :
      (promotion_id festival_id game_id : String)
      → InSession (
          CatalogSync.promotion_block rt settings call event_type payload promotion_id festival_id
            game_id)
  unfolding CatalogSync.promotion_block Festivals.find query
  block-InSession promotion_id festival_id game_id =
      InSession-bind _ _ (InSession-in_session _)
        (λ festival. known-InSession promotion_id festival_id game_id festival)

  pub promotion_event-RollsBack :
      RollsBack (CatalogSync.promotion_event rt settings call event_type payload)
  unfolding CatalogSync.promotion_event
  promotion_event-RollsBack = lift-RollsBack (require rt payload "promotion_id") _ (λ promotion_id.
      lift-RollsBack (require rt payload "game_id") _ (λ game_id.
        if-RollsBack (is_empty (get_text rt.repr "festival_id" payload)) pure-RollsBack (
          begin-RollsBack _
            (block-InSession promotion_id (get_text rt.repr "festival_id" payload) game_id))))
