-- ===== src/Repositories/CatalogGames.antt =====
-- `PostgresCatalogGameRepository` of app/adapters/outbound/repositories.py.
use festival_service.Prelude.{String, Option, none, some, if◌then◌else◌}
use festival_service.Text.{is_empty}
use festival_service.Dict.{get, set}
use festival_service.Errors.{ok}
use festival_service.Exec.{Exec, in_session, query}
use festival_service.Rows.{CatalogGameRow}
use festival_service.Snapshots.{CatalogGameSnapshot}
use festival_service.Repositories.Mapping.{to_catalog_game}

-- `a or b`, of texts
unfoldable pub or_else : String → String → String
or_else a b = if is_empty a then b else a

-- The row that `upsert` leaves, from the row that it finds.
unfoldable pub upserted : Option CatalogGameRow → CatalogGameSnapshot → CatalogGameRow
unfolding or_else
upserted none s = record {
  game_id = s.game_id;
  title = s.title;
  developer_id = s.developer_id;
  published = s.published;
  updated_at = s.updated_at;
}
upserted (some row) s = record row {
  title = or_else s.title row.title;
  developer_id = or_else s.developer_id row.developer_id;
  published = s.published;
  updated_at = s.updated_at;
}

unfoldable pub upsert : CatalogGameSnapshot → Exec (Unit {0})
unfolding upserted in_session
upsert s = in_session λ d. (
  ok tt,
  record d {
    catalog_games = set s.game_id (upserted (get s.game_id d.catalog_games) s) d.catalog_games;
  },
)

-- `get`
unfoldable pub find : String → Exec (Option CatalogGameSnapshot)
unfolding to_catalog_game query
find game_id = query λ d. elim (get game_id d.catalog_games) [
  | none ↦ ok none
  | some row ↦ ok (some (to_catalog_game row))
]
