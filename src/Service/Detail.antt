-- ===== src/Service/Detail.antt =====
-- `_detail` of app/application/festival_service.py on a valid database.
use festival_service.Prelude.{String, ◌≡◌, refl, none, some, List, [], ◌∷◌, All, arith}
use festival_service.Dict.{Dict, get}
use festival_service.Errors.{Result, ok, err}
use festival_service.Exec.{idle}
use festival_service.Runtime.{Runtime}
use festival_service.Call.{Settings}
use festival_service.Sorting.Order.{sort-All}
use festival_service.Rows.{Database, FestivalRow, PromotionSnapshotRow}
use festival_service.Festival.{Festival}
use festival_service.Snapshots.{PromotionSnapshot}
use festival_service.Repositories.Mapping.{to_festival, to_promotion}
use festival_service.Repositories.Festivals.{festival_not_found}
use festival_service.Repositories.Promotions.{of_festival, newest_first, to_promotions}
use festival_service.Dto.{of_detail}
use festival_service.Service.{detail}
use festival_service.Service.Session.{DatabaseIsValid}

module _ (rt : Runtime) where
  abbrev Loads : PromotionSnapshotRow → Type 0
  Loads row = (p : PromotionSnapshot) × (to_promotion rt row ≡ ok p)

  of_festival-Loads :
      (festival_id : String) (rows : Dict PromotionSnapshotRow)
      → All (λ (e : String × PromotionSnapshotRow). Loads e.1) rows
      → All Loads (of_festival festival_id rows)
  unfolding of_festival
  of_festival-Loads festival_id [] h = tt
  of_festival-Loads festival_id ((k, row) ∷ rows) h =
      ground (arith, of_festival-Loads festival_id rows h.1)

  to_promotions-Loads :
      (rows : List PromotionSnapshotRow)
      → All Loads rows
      → (ps : List PromotionSnapshot) × (to_promotions rt rows ≡ ok ps)
  unfolding to_promotions
  to_promotions-Loads [] h = ([], refl)
  to_promotions-Loads (row ∷ rows) h =
      let (p, e) = h.0 in let (ps, es) = to_promotions-Loads rows h.1 in (p ∷ ps, rw (e, es))

  -- The promotions of a festival, as `_detail` reads them from a database.
  abbrev pub promotions_in : String → Database → Result (List PromotionSnapshot)
  promotions_in festival_id d =
      to_promotions rt (newest_first (of_festival festival_id d.promotions))

  pub promotions_in_ok :
      (festival_id : String) (d : Database)
      → DatabaseIsValid rt d
      → (ps : List PromotionSnapshot) × (promotions_in festival_id d ≡ ok ps)
  unfolding newest_first
  promotions_in_ok festival_id d v =
      to_promotions-Loads _
        (sort-All Loads _ _ (of_festival-Loads festival_id d.promotions v.promotions_load))

  module _ (settings : Settings) where
    -- A festival that is stored is shown with its promotions, and nothing changes.
    pub detail_found :
        (festival_id : String) (d : Database) {row : FestivalRow} {f : Festival}
        {ps : List PromotionSnapshot}
        → get festival_id d.festivals ≡ some row
        → to_festival row ≡ ok f
        → promotions_in festival_id d ≡ ok ps
        → detail rt settings festival_id (idle d) ≡ (ok (of_detail f ps), idle d)
    unfolding detail
    detail_found festival_id d found loads promotions = ground arith

    pub detail_missing :
        (festival_id : String) (d : Database)
        → get festival_id d.festivals ≡ none
        → detail rt settings festival_id (idle d) ≡ (err (festival_not_found festival_id), idle d)
    unfolding detail
    detail_missing festival_id d missing = ground arith
