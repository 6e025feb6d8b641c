-- ===== src/Snapshots.antt =====
-- app/domain/catalog_sync.py: this service's copies of what Catalog reports.
use festival_service.Prelude.{String, Bool, Option, ◌==◌}
use festival_service.Int.{ℤ}
use festival_service.Datetime.{Datetime}
use festival_service.Money.{Money}

pub record CatalogGameSnapshot : Type 0 where
  pub game_id : String
  pub title : String
  pub developer_id : String
  pub published : Bool
  pub updated_at : Datetime

pub record PromotionSnapshot : Type 0 where
  pub promotion_id : String
  pub festival_id : String
  pub game_id : String
  pub state : String
  pub discount_bps : ℤ
  pub starts_at : Datetime
  pub ends_at : Datetime
  pub list_price : Option Money
  pub effective_price : Option Money
  pub updated_at : Datetime

-- `is_active`
unfoldable pub is_active : PromotionSnapshot → Bool
is_active p = p.state == "ACTIVE"
