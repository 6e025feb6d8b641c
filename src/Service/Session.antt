-- ===== src/Service/Session.antt =====
-- A valid database, and what `_load` and `save` do inside a transaction.
use festival_service.Prelude.{◌+◌, String, ◌≡◌, none, some, All, arith}
use festival_service.Dict.{get, set}
use festival_service.Errors.{ok, err}
use festival_service.Rows.{Database, FestivalRow, PromotionSnapshotRow}
use festival_service.Exec.{World}
use festival_service.Runtime.{Runtime}
use festival_service.Festival.{Festival}
use festival_service.Snapshots.{PromotionSnapshot}
use festival_service.Repositories.Mapping.{to_festival, to_promotion}
use festival_service.Repositories.Festivals
use festival_service.Repositories.Festivals.{updated_row, festival_not_found}
use festival_service.Repositories.RoundTrip.{RowIsValid}
use festival_service.Service.{load}

-- Every festival row loads as a valid festival under its own id, and every promotion row loads.
pub record DatabaseIsValid (rt : Runtime) (d : Database) : Type 0 where
  pub festival_at :
      (k : String) (row : FestivalRow)
      → get k d.festivals ≡ some row
      → (f : Festival) × RowIsValid row f × (f.id ≡ k)
  pub promotions_load :
      All
        (λ (e : String × PromotionSnapshotRow).
          (p : PromotionSnapshot) × (to_promotion rt e.1 ≡ ok p))
        d.promotions

-- Inside a transaction: what is committed, and the session's copy.
abbrev pub within : Database → Database → World
within c s = record { committed = c; session = some s }

-- The session's copy after `save` has written `g` over `row`.
abbrev pub with_row : Festival → FestivalRow → Database → Database
with_row g row s = record s { festivals = set g.id (updated_row g row) s.festivals }

module _ (c s : Database) where
  pub load_found :
      (festival_id : String) {row : FestivalRow} {f : Festival}
      → get festival_id s.festivals ≡ some row
      → to_festival row ≡ ok f
      → load festival_id (within c s) ≡ (ok f, within c s)
  unfolding load
  load_found festival_id found loads = ground arith

  pub load_missing :
      (festival_id : String)
      → get festival_id s.festivals ≡ none
      → load festival_id (within c s) ≡ (err (festival_not_found festival_id), within c s)
  unfolding load
  load_missing festival_id missing = ground arith

  pub save_found :
      (g : Festival) {row : FestivalRow}
      → get g.id s.festivals ≡ some row
      → row.version ≡ g.version
      → Festivals.save g (within c s)
        ≡ (ok (record g { version = g.version + 1 }), within c (with_row g row s))
  unfolding Festivals.save
  save_found g found same = ground arith
