-- ===== src/Rest/Tests.antt =====
-- A request of an administrator, and one of nobody.
use festival_service.Prelude.{
  [], ◌∷◌, String, Bool, true, false, ◌≡◌, refl, ◌⊎◌, Option, none, some, arith,
}
use festival_service.Datetime.{aware}
use festival_service.Json.{Json, text, end, field}
use festival_service.Errors.{Result, unauthenticated}
use festival_service.Exec.{World, idle}
use festival_service.Dto.{CreateFestivalRequest, FestivalDetailView}
use festival_service.Samples.{rt, settings, call, empty_database}
use festival_service.Service.Session.{DatabaseIsValid}
use festival_service.Auth.{Decoded, decoded}
use festival_service.Http.{raised}
use festival_service.Rest.{Body, fit, failed}
use festival_service.Service.Listing.{Page}
use festival_service.Cache.{Client, Writes, cached}
use festival_service.Rest.Browse.{list_key, list_festivals, get_festival}
use festival_service.Rest.Reads.{browse_reads}
use festival_service.Rest.Histories.{Request, IsForeign, serve_all, serve_all_foreign}
use festival_service.Rest.Guarded.{create, serve, Rejected, Granted, serve_guarded}

abbrev decode : String → Decoded
decode token = decoded "u1" (field "typ" (text "access") (field "role" (text "ADMIN") end))

abbrev summer : Body CreateFestivalRequest
summer =
    fit (record { name = "Summer"; description = ""; starts_at = aware 20; ends_at = aware 30 })

empty_database-IsValid : DatabaseIsValid rt empty_database
unfolding festival_service.Dict.get
empty_database-IsValid = record { festival_at = λ k row found. ground arith; promotions_load = tt }

nobody : serve rt settings (some decode) call none (create summer) (idle empty_database) ≡ (
  failed (raised (unauthenticated "an access token is required" "TOKEN_MISSING")),
  idle empty_database,
)
unfolding serve
nobody = refl

serve_guarded_example :
    Rejected rt settings (some decode) call (some "t1") empty_database (create summer)
    ⊎ Granted rt settings (some decode) call (some "t1") empty_database (create summer)
serve_guarded_example =
    serve_guarded rt settings (some decode) call empty_database empty_database-IsValid (some "t1")
      (create summer)

abbrev encode_page : Page → Json
encode_page page = text "page"

abbrev encode_detail : FestivalDetailView → Json
encode_detail page = text "detail"

abbrev id_le : String → String → Bool
id_le s t = true

abbrev full : Client
full = record { read = λ key. cached "detail"; write_fails = λ key value. false }

abbrev loads : String → Option Json
loads s = some (text s)

abbrev dumps : Json → Option String
dumps value = some ""

-- The page of the list is cached under a key that a request for a festival can name.
shared_key : list_key 20 0 none ≡ "list:20:0:None"
unfolding list_key
shared_key = refl

browse_reads_example :
    ((get_festival rt settings id_le
        (some full)
        loads
        dumps
        encode_detail
        "f1"
        (idle empty_database)).0.1
      ≡ idle empty_database)
    × ((list_festivals rt settings id_le
            (some full)
            loads
            dumps
            encode_page
            20
            0
            none
            (idle empty_database)
          ≡ none)
        ⊎ ((x : (Result Json × World) × Writes) × (list_festivals rt settings id_le
                (some full)
                loads
                dumps
                encode_page
                20
                0
                none
                (idle empty_database)
              ≡ some x)
            × (x.0.1 ≡ idle empty_database)))
browse_reads_example =
    browse_reads rt settings empty_database id_le (some full) loads dumps encode_page encode_detail
      20 0 none "f1"

abbrev by_nobody : Request
by_nobody = record { call = call; token = none; write = create summer }

by_nobody-IsForeign : IsForeign rt settings (some decode) by_nobody
by_nobody-IsForeign p known is_admin =
    let absent : none ≡ some known.bearer = known.sent in ground arith

serve_all_foreign_example :
    serve_all rt settings (some decode) (by_nobody ∷ by_nobody ∷ []) (idle empty_database)
    ≡ idle empty_database
serve_all_foreign_example =
    serve_all_foreign rt settings (some decode) empty_database (by_nobody ∷ by_nobody ∷ [])
      empty_database-IsValid (by_nobody-IsForeign, (by_nobody-IsForeign, tt))
