-- ===== src/Service/Tests.antt =====
-- The use cases at a concrete database.
use festival_service.Prelude.{
  Bool, List, ◌≤◌, ◌*◌, map, length, String, ◌≡◌, refl, ◌⊎◌, none, some, subst, Bool-cases, inl,
  inr, [], ◌∷◌, arith, eq_iff, not, true, ◌==◌,
}
use festival_service.Datetime.{aware}
use festival_service.Dict.{get, Distinct}
use festival_service.Errors.{Exception, ok, err}
use festival_service.Exec.{idle, begin, ◌>>=◌}
use festival_service.Samples.{rt, settings, call}
use festival_service.Rows.{Database, FestivalRow}
use festival_service.Festival.{Festival, draft, create}
use festival_service.Festival.Invariant.{create-IsValid}
use festival_service.Repositories.Festivals.{new_row}
use festival_service.Repositories.Mapping.{to_festival}
use festival_service.Repositories.Games.{Unique}
use festival_service.Repositories.RoundTrip.{RowIsValid}
use festival_service.Service.Session.{DatabaseIsValid}
use festival_service.Service.Actions.{add_game, perform}
use festival_service.Service
use festival_service.Directory.{response, active_user_ids}
use festival_service.Dto.{CreateFestivalRequest}
use festival_service.Service.Creation.{NotCreated, Created, create_refines}
use festival_service.Service.Audience.{Blocks, start_blocked}
use mathlib.Core.List.{Permᴰ}
use festival_service.Repositories.Listing.{matching, to_festivals}
use festival_service.Dto.{festival_view}
use festival_service.Service.Listing.Walk.{walk, walk_all}
use festival_service.Service.Listing.Shown.{Selects, Precedes}
use festival_service.Sorting.Order.{Ascending}
use festival_service.Text.Order.{precedes, precedes_asym, precedes_trans, precedes_total}
use festival_service.Service.Refinement.{Done, Reason, perform_refines}

abbrev planned : Festival
planned = record {
  id = "f1";
  name = "Summer";
  description = "Sun";
  starts_at = aware 20;
  ends_at = aware 30;
  state = draft;
  created_by = "admin";
  created_at = aware 10;
  started_at = none;
  ended_at = none;
  games = [];
  version = 0;
}

abbrev row : FestivalRow
row = new_row planned

abbrev before : Database
before = record {
  festivals = ("f1", row) ∷ [];
  catalog_games =
      (
        "g1",
        record {
          game_id = "g1";
          title = "Go";
          developer_id = "dev";
          published = true;
          updated_at = aware 1;
        },
      )
      ∷ [];
  promotions = [];
  outbox = [];
  next_id = 1;
}

created : create "f1" " Summer " "Sun" (aware 20) (aware 30) "admin" (aware 10) ≡ ok planned
unfolding create festival_service.Text.is_empty festival_service.Text.strip
    festival_service.Text.length festival_service.Text.take
created = refl

row_loads : to_festival row ≡ ok planned
unfolding to_festival festival_service.Repositories.Mapping.state_of_text new_row
    festival_service.Festival.state_text festival_service.Sorting.sort
row_loads = refl

row-Unique : Unique row.games
unfolding new_row
row-Unique = tt

row-RowIsValid : RowIsValid row planned
row-RowIsValid = record {
  loads = row_loads;
  valid = create-IsValid "f1" " Summer " "Sun" (aware 20) (aware 30) "admin" (aware 10) created;
  unique = row-Unique;
}

before-festival_at :
    (k : String) (r : FestivalRow)
    → get k before.festivals ≡ some r
    → (f : Festival) × RowIsValid r f × (f.id ≡ k)
unfolding get
before-festival_at k r found = elim (Bool-cases ("f1" == k)) [
  | inl here ↦
      let same : row ≡ r = ground (arith, here) in
      (planned, subst (λ x. RowIsValid x planned) same row-RowIsValid, (eq_iff "f1" k).0 here)
  | inr elsewhere ↦ absurd (ground (arith, elsewhere))
]

before-IsValid : DatabaseIsValid rt before
before-IsValid = record { festival_at = before-festival_at; promotions_load = tt }

perform_refines_example :
    ((e : Exception) × (perform rt settings call "f1" "admin"
          (add_game (record { game_id = "g1" }))
          (idle before)
        ≡ (err e, idle before))
      × Reason rt settings call "f1" "admin" before (add_game (record { game_id = "g1" })) e)
    ⊎ Done rt settings call "f1" "admin" before (add_game (record { game_id = "g1" }))
perform_refines_example =
    perform_refines rt settings call "f1" "admin" before before-IsValid
      (add_game (record { game_id = "g1" }))

start_blocked_example :
    ((e : Exception) × Blocks (response 204 none) e
      × (Service.start rt settings call (some (response 204 none)) "f1" "admin" (idle before)
          ≡ (err e, idle before)))
    ⊎ ((audience : List String) × (active_user_ids rt (response 204 none) ≡ ok audience)
        × (Service.start rt settings call (some (response 204 none)) "f1" "admin" (idle before)
            ≡ (begin (Service.start_block rt settings call "f1" "admin" audience) >>= λ done.
                  Service.detail rt settings "f1")
                (idle before)))
start_blocked_example = start_blocked rt settings call (response 204 none) "f1" "admin" before

abbrev request : CreateFestivalRequest
request = record { name = "Autumn"; description = ""; starts_at = aware 40; ends_at = aware 50 }

create_refines_example :
    ((e : Exception) × (Service.create rt settings call "admin" request (idle before)
        ≡ (err e, idle before))
      × NotCreated rt settings call "admin" before request e)
    ⊎ Created rt settings call "admin" before request
create_refines_example = create_refines rt settings call "admin" before request before-IsValid

before-Distinct : Distinct before.festivals
unfolding get
before-Distinct = (refl, tt)

one_page : length (matching none before.festivals) ≤ 1 * 20
unfolding matching
one_page = omega arith

-- By the code points.
abbrev id_le : String → String → Bool
id_le s t = not (precedes t s)

id_total : (s t : String) → (id_le s t ≡ true) ⊎ (id_le t s ≡ true)
id_total s t = elim (Bool-cases (precedes t s)) [
  | inl after ↦ let back = precedes_asym t s after in inr (ground arith)
  | inr first ↦ inl (ground arith)
]

id_trans : (s t u : String) → id_le s t ≡ true → id_le t u ≡ true → id_le s u ≡ true
id_trans s t u p q = elim (Bool-cases (precedes u s)) [
  | inr first ↦ ground arith
  | inl after ↦ elim (Bool-cases (precedes s t)) [
    | inl lower ↦ let last = precedes_trans u s t after lower in ground arith
    | inr level ↦
        let same : s ≡ t = precedes_total s t level (ground arith) in
        let last : precedes u t ≡ true = subst (λ x. precedes u x ≡ true) same after in ground arith
  ]
]

walk_all_example :
    (chosen ordered : List FestivalRow) × (all : List Festival) × Selects none before.festivals
      chosen
    × Permᴰ chosen ordered
    × Ascending (Precedes id_le) ordered
    × (to_festivals ordered ≡ ok all)
    × (walk rt id_le before none 20 1 0 ≡ ok (map festival_view all))
walk_all_example =
    walk_all rt id_le before none 20 1 one_page before-Distinct before-IsValid id_total id_trans
