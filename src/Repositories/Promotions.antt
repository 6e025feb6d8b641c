-- ===== src/Repositories/Promotions.antt =====
-- `PostgresPromotionRepository` of app/adapters/outbound/repositories.py.
use festival_service.Prelude.{String, Option, none, some, List, [], ◌∷◌, leb, ◌==◌, if◌then◌else◌}
use festival_service.Int.{ℤ}
use festival_service.Datetime.{instant}
use festival_service.Dict.{Dict, get, set}
use festival_service.Sorting.{sort}
use festival_service.Errors.{Result, ok, ◌>>=◌}
use festival_service.Exec.{Exec, in_session, query}
use festival_service.Runtime.{Runtime}
use festival_service.Money.{Money}
use festival_service.Rows.{Database, PromotionSnapshotRow}
use festival_service.Snapshots.{PromotionSnapshot}
use festival_service.Repositories.Mapping.{to_promotion}

-- `price.minor if price else None`: a `Money` is always true.
abbrev pub minor_of : Option Money → Option ℤ
minor_of none = none
minor_of (some m) = some m.minor

abbrev pub code_of : Option Money → Option String
code_of none = none
code_of (some m) = some m.currency

-- The row that `upsert` leaves. A row that is there keeps its festival and its game.
unfoldable pub upserted : Option PromotionSnapshotRow → PromotionSnapshot → PromotionSnapshotRow
upserted none s = record {
  promotion_id = s.promotion_id;
  festival_id = s.festival_id;
  game_id = s.game_id;
  state = s.state;
  discount_bps = s.discount_bps;
  starts_at = s.starts_at;
  ends_at = s.ends_at;
  list_price_minor = minor_of s.list_price;
  list_price_currency = code_of s.list_price;
  effective_price_minor = minor_of s.effective_price;
  effective_price_currency = code_of s.effective_price;
  updated_at = s.updated_at;
}
upserted (some row) s = record row {
  state = s.state;
  discount_bps = s.discount_bps;
  starts_at = s.starts_at;
  ends_at = s.ends_at;
  list_price_minor = minor_of s.list_price;
  list_price_currency = code_of s.list_price;
  effective_price_minor = minor_of s.effective_price;
  effective_price_currency = code_of s.effective_price;
  updated_at = s.updated_at;
}

unfoldable pub upsert : PromotionSnapshot → Exec (Unit {0})
unfolding upserted in_session
upsert s = in_session λ d. (
  ok tt,
  record d {
    promotions = set s.promotion_id (upserted (get s.promotion_id d.promotions) s) d.promotions;
  },
)

unfoldable pub load : Runtime → String → Database → Result (Option PromotionSnapshot)
unfolding to_promotion
load rt promotion_id d = elim (get promotion_id d.promotions) [
  | none ↦ ok none
  | some row ↦ to_promotion rt row >>= λ p. ok (some p)
]

-- `get`
unfoldable pub find : Runtime → String → Exec (Option PromotionSnapshot)
unfolding load query
find rt promotion_id = query (load rt promotion_id)

-- `WHERE festival_id = :festival_id`
unfoldable pub of_festival : String → Dict PromotionSnapshotRow → List PromotionSnapshotRow
of_festival festival_id [] = []
of_festival festival_id ((k, row) ∷ rows) =
    let rest = of_festival festival_id rows in
    if row.festival_id == festival_id then row ∷ rest else rest

-- `ORDER BY updated_at DESC`
unfoldable pub newest_first : List PromotionSnapshotRow → List PromotionSnapshotRow
newest_first = sort (λ p q. leb (instant q.updated_at) (instant p.updated_at))

unfoldable pub to_promotions : Runtime → List PromotionSnapshotRow → Result (List PromotionSnapshot)
unfolding to_promotion
to_promotions rt [] = ok []
to_promotions rt (row ∷ rows) =
    let rest = to_promotions rt rows in to_promotion rt row >>= λ p. rest >>= λ ps. ok (p ∷ ps)

unfoldable pub list_for_festival : Runtime → String → Exec (List PromotionSnapshot)
unfolding of_festival newest_first to_promotions query
list_for_festival rt festival_id =
    query (λ d. to_promotions rt (newest_first (of_festival festival_id d.promotions)))
