-- ===== src/Service/Listing.antt =====
-- `FestivalService.list` of app/application/festival_service.py.
pub mod Pages
pub mod Shown
pub mod Walk
use festival_service.Prelude.{ℕ, String, Bool, Option, List, map}
use festival_service.Exec.{Exec, pure, ◌>>=◌, read}
use festival_service.Festival.{Festival, FestivalState}
use festival_service.Repositories.Listing
use festival_service.Dto.{FestivalView, festival_view}

-- `Page[FestivalView]` of app/application/dto.py.
pub record Page : Type 0 where
  pub items : List FestivalView
  pub total : ℕ
  pub limit : ℕ
  pub offset : ℕ

unfoldable pub list : (String → String → Bool) → ℕ → ℕ → Option FestivalState → Exec Page
unfolding Listing.list read festival_view
list id_le limit offset state = do
  found ← read (Listing.list id_le limit offset state)
  pure (record {
    items = map festival_view found.0;
    total = found.1;
    limit = limit;
    offset = offset;
  })
