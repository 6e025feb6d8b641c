-- ===== src/Repositories/Mapping.antt =====
-- The mapping functions of app/adapters/outbound/repositories.py, from rows to domain objects.
use festival_service.Prelude.{String, Option, none, some, List, [], ◌∷◌, leb, ◌==◌, if◌then◌else◌}
use festival_service.Int.{ℤ}
use festival_service.Text.{is_empty}
use festival_service.Datetime.{instant}
use festival_service.Dict.{Dict, set}
use festival_service.Sorting.{sort}
use festival_service.Errors.{Result, ok, err, value_error, ◌>>=◌}
use festival_service.Runtime.{Runtime}
use festival_service.Money
use festival_service.Money.{Money}
use festival_service.Festival.{
  Festival, FestivalGame, FestivalState, draft, active, ended, cancelled,
}
use festival_service.Snapshots.{CatalogGameSnapshot, PromotionSnapshot}
use festival_service.Rows.{FestivalRow, FestivalGameRow, CatalogGameRow, PromotionSnapshotRow}

-- `FestivalState(text)`
unfoldable pub state_of_text : String → Result FestivalState
state_of_text s =
    if s == "DRAFT"
    then ok draft
    else if s == "ACTIVE"
    then ok active
    else if s == "ENDED"
    then ok ended
    else if s == "CANCELLED"
    then ok cancelled
    else err value_error

unfoldable pub to_festival_game : FestivalGameRow → FestivalGame
to_festival_game g = record {
  game_id = g.game_id;
  title = g.title;
  developer_id = g.developer_id;
  added_by = g.added_by;
  added_at = g.added_at;
}

-- The dict comprehension of `_to_festival`, over the games that are left.
unfoldable pub games_from : Dict FestivalGame → List FestivalGameRow → Dict FestivalGame
unfolding to_festival_game
games_from acc [] = acc
games_from acc (g ∷ gs) = games_from (set g.game_id (to_festival_game g) acc) gs

-- The relationship's `order_by="FestivalGameRow.added_at"`, which every load of a row applies.
unfoldable pub by_added_at : List FestivalGameRow → List FestivalGameRow
by_added_at = sort (λ g h. leb (instant g.added_at) (instant h.added_at))

-- `_to_festival`, of a row that has just been loaded.
unfoldable pub to_festival : FestivalRow → Result Festival
unfolding games_from by_added_at
to_festival row = do
  state ← state_of_text row.state
  ok (record {
    id = row.id;
    name = row.name;
    description = row.description;
    starts_at = row.starts_at;
    ends_at = row.ends_at;
    state = state;
    created_by = row.created_by;
    created_at = row.created_at;
    started_at = row.started_at;
    ended_at = row.ended_at;
    games = games_from [] (by_added_at row.games);
    version = row.version;
  })

-- `_to_catalog_game`
unfoldable pub to_catalog_game : CatalogGameRow → CatalogGameSnapshot
to_catalog_game row = record {
  game_id = row.game_id;
  title = row.title;
  developer_id = row.developer_id;
  published = row.published;
  updated_at = row.updated_at;
}

-- `_money`
unfoldable pub money_of : Runtime → Option ℤ → Option String → Result (Option Money)
money_of rt none currency = ok none
money_of rt (some minor) none = ok none
money_of rt (some minor) (some currency) =
    if is_empty currency then ok none else do m ← Money.new rt minor currency; ok (some m)

-- `_to_promotion`
unfoldable pub to_promotion : Runtime → PromotionSnapshotRow → Result PromotionSnapshot
unfolding money_of
to_promotion rt row = do
  list_price ← money_of rt row.list_price_minor row.list_price_currency
  effective_price ← money_of rt row.effective_price_minor row.effective_price_currency
  ok (record {
    promotion_id = row.promotion_id;
    festival_id = row.festival_id;
    game_id = row.game_id;
    state = row.state;
    discount_bps = row.discount_bps;
    starts_at = row.starts_at;
    ends_at = row.ends_at;
    list_price = list_price;
    effective_price = effective_price;
    updated_at = row.updated_at;
  })
