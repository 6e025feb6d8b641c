-- ===== src/Rest/Browse.antt =====
-- The public routes of app/adapters/inbound/rest: reads through the cache. `encode_page` and
-- `encode_detail` are what `jsonable_encoder` makes of the views. FastAPI answers a page whose
-- parameters are out of bounds as it does a body that does not fit, and checks what comes out of
-- the cache against the response model.
use festival_service.Prelude.{
  ℕ, String, Bool, ◌&&◌, Option, none, some, [], ◌∷◌, leb, if◌then◌else◌,
}
use festival_service.Int.{pos}
use festival_service.Text.{f_string}
use festival_service.Text.Number.{str_of_int}
use festival_service.Json.{Json}
use festival_service.Errors.{Result}
use festival_service.Exec.{World, Exec, pure, ◌>>=◌}
use festival_service.Runtime.{Runtime}
use festival_service.Call.{Settings}
use festival_service.Festival.{FestivalState, state_text}
use festival_service.Dto.{FestivalDetailView}
use festival_service.Service
use festival_service.Service.Listing
use festival_service.Service.Listing.{Page}
use festival_service.Cache.{Client, Writes, get_or_set}

-- The bounds of `Pagination`.
unfoldable pub is_page : ℕ → ℕ → Bool
is_page limit offset = leb 1 limit && leb limit 100 && leb offset 100000

-- `f"{state}"`
abbrev state_part : Option FestivalState → String
state_part none = "None"
state_part (some state) = state_text state

-- `f"list:{page.limit}:{page.offset}:{state}"`
unfoldable pub list_key : ℕ → ℕ → Option FestivalState → String
unfolding f_string str_of_int state_text
list_key limit offset state =
    f_string (
      "list:"
      ∷ str_of_int (pos limit)
      ∷ ":"
      ∷ str_of_int (pos offset)
      ∷ ":"
      ∷ state_part state
      ∷ [])

-- `_as_json`
unfoldable pub as_json : {A : Type 0} → (A → Json) → Exec A → Exec Json
as_json encode awaitable = do value ← awaitable; pure (encode value)

module _ (rt : Runtime) (settings : Settings) (id_le : String → String → Bool)
    (client : Option Client) (loads : String → Option Json) (dumps : Json → Option String) where
  -- The cache's prefix is the name of the service; `none` is a page out of bounds.
  unfoldable pub list_festivals :
      (Page → Json) → ℕ → ℕ → Option FestivalState → World → Option ((Result Json × World) × Writes)
  unfolding is_page list_key as_json get_or_set Listing.list
  list_festivals encode_page limit offset state w =
      if is_page limit offset
      then some (
          get_or_set loads dumps settings.service_name client (list_key limit offset state)
            (as_json encode_page (Listing.list id_le limit offset state)) w)
      else none

  unfoldable pub get_festival :
      (FestivalDetailView → Json) → String → World → (Result Json × World) × Writes
  unfolding as_json get_or_set Service.get
  get_festival encode_detail festival_id w =
      get_or_set loads dumps settings.service_name client festival_id
        (as_json encode_detail (Service.get rt settings festival_id)) w
