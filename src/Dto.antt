-- ===== src/Dto.antt =====
-- app/application/dto.py: the requests and the views.
use festival_service.Prelude.{
  ℕ, String, Bool, true, Option, none, some, List, [], ◌∷◌, map, length, leb, if◌then◌else◌,
}
use festival_service.Int.{ℤ}
use festival_service.Text.Number.{str_of_int}
use festival_service.Datetime.{Datetime, instant}
use festival_service.Dict.{Dict, get, set}
use festival_service.Money.{Money}
use festival_service.Festival.{Festival, FestivalGame, FestivalState}
use festival_service.Snapshots.{PromotionSnapshot, is_active}

pub record CreateFestivalRequest : Type 0 where
  pub name : String
  pub description : String
  pub starts_at : Datetime
  pub ends_at : Datetime

pub record RescheduleFestivalRequest : Type 0 where
  pub starts_at : Datetime
  pub ends_at : Datetime

pub record AddGameRequest : Type 0 where
  pub game_id : String

pub record MoneyView : Type 0 where
  pub amount_minor : String
  pub currency : String

-- `MoneyView.of`
unfoldable pub money_view : Option Money → Option MoneyView
unfolding str_of_int
money_view none = none
money_view (some m) = some (record { amount_minor = str_of_int m.minor; currency = m.currency })

pub record FestivalGameView : Type 0 where
  pub game_id : String
  pub title : String
  pub developer_id : String
  pub added_by : String
  pub added_at : Datetime
  pub discounted_price : Option MoneyView
  pub discount_bps : Option ℤ

-- `FestivalGameView.of`
unfoldable pub game_view : FestivalGame → Option PromotionSnapshot → FestivalGameView
unfolding money_view
game_view game active_promotion = record {
  game_id = game.game_id;
  title = game.title;
  developer_id = game.developer_id;
  added_by = game.added_by;
  added_at = game.added_at;
  discounted_price = elim active_promotion [ none ↦ none | some p ↦ money_view p.effective_price ];
  discount_bps = elim active_promotion [ none ↦ none | some p ↦ some p.discount_bps ];
}

pub record PromotionSnapshotView : Type 0 where
  pub promotion_id : String
  pub game_id : String
  pub state : String
  pub discount_bps : ℤ
  pub starts_at : Datetime
  pub ends_at : Datetime
  pub list_price : Option MoneyView
  pub effective_price : Option MoneyView
  pub updated_at : Datetime

-- `PromotionSnapshotView.of`
unfoldable pub promotion_view : PromotionSnapshot → PromotionSnapshotView
unfolding money_view
promotion_view p = record {
  promotion_id = p.promotion_id;
  game_id = p.game_id;
  state = p.state;
  discount_bps = p.discount_bps;
  starts_at = p.starts_at;
  ends_at = p.ends_at;
  list_price = money_view p.list_price;
  effective_price = money_view p.effective_price;
  updated_at = p.updated_at;
}

pub record FestivalView : Type 0 where
  pub id : String
  pub name : String
  pub description : String
  pub state : FestivalState
  pub starts_at : Datetime
  pub ends_at : Datetime
  pub game_count : ℕ
  pub created_by : String
  pub created_at : Datetime
  pub started_at : Option Datetime
  pub ended_at : Option Datetime

-- `FestivalView.of`
unfoldable pub festival_view : Festival → FestivalView
festival_view f = record {
  id = f.id;
  name = f.name;
  description = f.description;
  state = f.state;
  starts_at = f.starts_at;
  ends_at = f.ends_at;
  game_count = length f.games;
  created_by = f.created_by;
  created_at = f.created_at;
  started_at = f.started_at;
  ended_at = f.ended_at;
}

pub record FestivalDetailView : Type 0 where
  pub base : FestivalView
  pub open base use *
  pub games : List FestivalGameView
  pub promotions : List PromotionSnapshotView

-- `current is None or snap.updated_at >= current.updated_at`; both come from the database, with a
-- time zone.
unfoldable pub replaces : Option PromotionSnapshot → PromotionSnapshot → Bool
replaces none p = true
replaces (some current) p = leb (instant current.updated_at) (instant p.updated_at)

-- One round of the loop over the promotions in `of_detail`.
unfoldable pub note_active : PromotionSnapshot → Dict PromotionSnapshot → Dict PromotionSnapshot
unfolding replaces is_active
note_active p by_game =
    if is_active p
    then if replaces (get p.game_id by_game) p then set p.game_id p by_game else by_game
    else by_game

unfoldable pub by_game_active :
    Dict PromotionSnapshot → List PromotionSnapshot → Dict PromotionSnapshot
unfolding note_active
by_game_active acc [] = acc
by_game_active acc (p ∷ ps) = by_game_active (note_active p acc) ps

unfoldable pub game_views : Dict PromotionSnapshot → Dict FestivalGame → List FestivalGameView
unfolding game_view
game_views by_game [] = []
game_views by_game ((game_id, game) ∷ games) =
    game_view game (get game_id by_game) ∷ game_views by_game games

-- `FestivalDetailView.of_detail`
unfoldable pub of_detail : Festival → List PromotionSnapshot → FestivalDetailView
unfolding festival_view by_game_active game_views promotion_view
of_detail festival promotions = record {
  base = festival_view festival;
  games = game_views (by_game_active [] promotions) festival.games;
  promotions = map promotion_view promotions;
}
