-- ===== src/Cache/Tests.antt =====
-- A read through a cache that does not answer.
use festival_service.Prelude.{String, true, ◌≡◌, refl, ◌⊎◌, Option, some, [], ◌∷◌}
use festival_service.Text.{f_string}
use festival_service.Json.{Json, text}
use festival_service.Errors.{ok}
use festival_service.Exec.{Exec, idle, pure}
use festival_service.Samples.{empty_database}
use festival_service.Cache.{Client, unavailable, missing, cached, get_or_set, loaded}
use festival_service.Cache.FailsOpen.{Stored, get_or_set_lem}

abbrev loads : String → Option Json
loads s = some (text s)

abbrev dumps : Json → Option String
dumps value = some "page"

abbrev down : Client
down = record { read = λ key. unavailable; write_fails = λ key value. true }

abbrev empty : Client
empty = record { read = λ key. missing; write_fails = λ key value. true }

abbrev compute : Exec Json
compute = pure (text "page")

lost_write :
    get_or_set loads dumps "festival-service" (some empty) "f1" compute (idle empty_database)
    ≡ ((ok (text "page"), idle empty_database), [])
unfolding get_or_set
lost_write = refl

get_or_set_lem_example :
    let full_key = f_string ("festival-service" ∷ ":" ∷ "f1" ∷ []) in
    let x =
      get_or_set loads dumps "festival-service" (some down) "f1" compute (idle empty_database) in
    ((x.0 ≡ compute (idle empty_database)) × Stored dumps full_key x.0.0 x.1)
    ⊎ ((c : Client) × (s : String) × (some down ≡ some c)
        × (c.read full_key ≡ cached s)
        × (x ≡ ((loaded (loads s), idle empty_database), [])))
get_or_set_lem_example =
    get_or_set_lem loads dumps "festival-service" (some down) "f1" compute (idle empty_database)
