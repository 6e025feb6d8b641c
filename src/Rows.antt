-- ===== src/Rows.antt =====
-- app/adapters/outbound/models.py, and `OutboxMessage` of app/platform/outbox.py: the rows and the
-- tables. A table with a text primary key is a `Dict` under that key.
use festival_service.Prelude.{ℕ, String, Bool, Option, List}
use festival_service.Int.{ℤ}
use festival_service.Datetime.{Datetime}
use festival_service.Dict.{Dict}
use festival_service.Json.{Fields}

pub record FestivalGameRow : Type 0 where
  pub festival_id : String
  pub game_id : String
  pub title : String
  pub developer_id : String
  pub added_by : String
  pub added_at : Datetime

pub record FestivalRow : Type 0 where
  pub id : String
  pub name : String
  pub description : String
  pub state : String
  pub starts_at : Datetime
  pub ends_at : Datetime
  pub created_by : String
  pub created_at : Datetime
  pub started_at : Option Datetime
  pub ended_at : Option Datetime
  pub version : ℕ
  -- the rows of `festival_games` that point here
  pub games : List FestivalGameRow

pub record CatalogGameRow : Type 0 where
  pub game_id : String
  pub title : String
  pub developer_id : String
  pub published : Bool
  pub updated_at : Datetime

pub record PromotionSnapshotRow : Type 0 where
  pub promotion_id : String
  pub festival_id : String
  pub game_id : String
  pub state : String
  pub discount_bps : ℤ
  pub starts_at : Datetime
  pub ends_at : Datetime
  pub list_price_minor : Option ℤ
  pub list_price_currency : Option String
  pub effective_price_minor : Option ℤ
  pub effective_price_currency : Option String
  pub updated_at : Datetime

pub record OutboxMessage : Type 0 where
  pub id : ℕ
  pub event_id : String
  pub event_type : String
  pub topic : String
  pub partition_key : String
  pub envelope : Fields
  pub published_at : Option Datetime
  pub attempts : ℕ
  pub last_error : Option String

pub record Database : Type 0 where
  pub festivals : Dict FestivalRow
  pub catalog_games : Dict CatalogGameRow
  pub promotions : Dict PromotionSnapshotRow
  -- in the order of the ids
  pub outbox : List OutboxMessage
  -- the next value of the id sequence
  pub next_id : ℕ
