-- ===== src/Repositories/Games.antt =====
-- The games of a festival row, as `_to_festival` reads them and as `save` writes them.
use festival_service.Prelude.{
  String, ◌≡◌, refl, ap, ◌∙◌, ◌⊎◌, eq_refl, Bool, true, false, Option, none, some, List, [], ◌∷◌,
  ◌++◌, arith, eq_iff, ◌==◌, leb, if◌then◌else◌,
}
use mathlib.Core.Option
use festival_service.Datetime.{instant}
use festival_service.Dict.{Dict, get, set, contains, Distinct}
use festival_service.Dict.Laws.{get-set, set-Distinct}
use festival_service.Sorting.{insert, sort}
use festival_service.Rows.{FestivalGameRow}
use festival_service.Festival.{FestivalGame}
use festival_service.Festival.Invariant.{Keyed, set-Keyed}
use festival_service.Repositories.Mapping.{to_festival_game, games_from, by_added_at}
use festival_service.Repositories.Festivals.{keep_wanted, is_existing, missing_rows, new_game_row}

-- The row of a game.
unfoldable pub row_of : String → List FestivalGameRow → Option FestivalGameRow
row_of k [] = none
row_of k (g ∷ gs) = if g.game_id == k then some g else row_of k gs

-- The primary key (festival_id, game_id): one row for each game.
abbrev pub Unique : List FestivalGameRow → Type 0
Unique [] = Unit
Unique (g ∷ gs) = (row_of g.game_id gs ≡ none) × Unique gs

-- The game that a row holds.
abbrev pub game_in : Option FestivalGameRow → Option FestivalGame → Option FestivalGame
game_in none other = other
game_in (some g) other = some (to_festival_game g)

get-games_from :
    (k : String) (acc : Dict FestivalGame) (gs : List FestivalGameRow)
    → Unique gs
    → get k (games_from acc gs) ≡ game_in (row_of k gs) (get k acc)
unfolding games_from row_of
get-games_from k acc [] u = refl
get-games_from k acc (g ∷ gs) u = ground (
  arith,
  get-games_from k (set g.game_id (to_festival_game g) acc) gs u.1,
  get-set k g.game_id (to_festival_game g) acc,
  eq_iff g.game_id k,
)

games_from-Distinct :
    (acc : Dict FestivalGame) (gs : List FestivalGameRow)
    → Distinct acc
    → Distinct (games_from acc gs)
unfolding games_from
games_from-Distinct acc [] h = h
games_from-Distinct acc (g ∷ gs) h =
    games_from-Distinct (set g.game_id (to_festival_game g) acc) gs
      (set-Distinct g.game_id (to_festival_game g) acc h)

games_from-Keyed :
    (acc : Dict FestivalGame) (gs : List FestivalGameRow) → Keyed acc → Keyed (games_from acc gs)
unfolding games_from
games_from-Keyed acc [] h = h
games_from-Keyed acc (g ∷ gs) h =
    games_from-Keyed (set g.game_id (to_festival_game g) acc) gs
      (unfold to_festival_game in set-Keyed (to_festival_game g) acc h)

abbrev earlier : FestivalGameRow → FestivalGameRow → Bool
earlier g h = leb (instant g.added_at) (instant h.added_at)

row_of-insert :
    (k : String) (g : FestivalGameRow) (gs : List FestivalGameRow)
    → row_of g.game_id gs ≡ none
    → row_of k (insert earlier g gs) ≡ row_of k (g ∷ gs)
unfolding row_of insert
row_of-insert k g [] h = refl
row_of-insert k g (x ∷ gs) h = ground (
  arith,
  row_of-insert k g gs,
  eq_iff g.game_id k,
  eq_iff x.game_id k,
  eq_iff x.game_id g.game_id,
)

insert-Unique :
    (g : FestivalGameRow) (gs : List FestivalGameRow)
    → row_of g.game_id gs ≡ none
    → Unique gs
    → Unique (insert earlier g gs)
unfolding row_of insert
insert-Unique g [] h u = (refl, tt)
insert-Unique g (x ∷ gs) h u = ground (
  arith,
  insert-Unique g gs,
  row_of-insert x.game_id g gs,
  eq_iff g.game_id x.game_id,
  eq_iff x.game_id g.game_id,
)

sort-row_of :
    (k : String) (gs : List FestivalGameRow)
    → Unique gs
    → (row_of k (sort earlier gs) ≡ row_of k gs) × Unique (sort earlier gs)
unfolding sort row_of
sort-row_of k [] u = (refl, tt)
sort-row_of k (g ∷ gs) u =
    let (found, unique) = sort-row_of k gs u.1 in
    let (same, _) = sort-row_of g.game_id gs u.1 in
    let absent : row_of g.game_id (sort earlier gs) ≡ none = same ∙ u.0 in
    (
      rw (row_of-insert k g (sort earlier gs) absent, found),
      insert-Unique g (sort earlier gs) absent unique,
    )

-- What `_to_festival` makes of the games of a row.
abbrev pub loaded : List FestivalGameRow → Dict FestivalGame
loaded gs = games_from [] (by_added_at gs)

pub get-loaded :
    (k : String) (gs : List FestivalGameRow)
    → Unique gs
    → get k (loaded gs) ≡ game_in (row_of k gs) none
unfolding by_added_at get
get-loaded k gs u =
    let (found, unique) = sort-row_of k gs u in
    get-games_from k [] (sort earlier gs) unique ∙ ap (λ r. game_in r none) found

pub loaded-Distinct : (gs : List FestivalGameRow) → Distinct (loaded gs)
loaded-Distinct gs = games_from-Distinct [] (by_added_at gs) tt

pub loaded-Keyed : (gs : List FestivalGameRow) → Keyed (loaded gs)
loaded-Keyed gs = games_from-Keyed [] (by_added_at gs) tt

-- The first of two rows.
abbrev pub or_row : Option FestivalGameRow → Option FestivalGameRow → Option FestivalGameRow
or_row none r = r
or_row (some g) r = some g

pub row_of-append :
    (k : String) (xs ys : List FestivalGameRow)
    → row_of k (xs ++ ys) ≡ or_row (row_of k xs) (row_of k ys)
unfolding row_of
row_of-append k [] ys = refl
row_of-append k (g ∷ xs) ys = ground (arith, row_of-append k xs ys)

pub append-Unique :
    (xs ys : List FestivalGameRow)
    → Unique xs
    → Unique ys
    → ((k : String) → (row_of k xs ≡ none) ⊎ (row_of k ys ≡ none))
    → Unique (xs ++ ys)
unfolding row_of
append-Unique [] ys ux uy apart = uy
append-Unique (g ∷ xs) ys ux uy apart = (
  ground (arith, row_of-append g.game_id xs ys, apart g.game_id, eq_refl g.game_id, ux.0),
  append-Unique xs ys ux.1 uy (λ k. ground (arith, apart k)),
)

pub row_of-keep_wanted :
    (k : String) (wanted : Dict FestivalGame) (gs : List FestivalGameRow)
    → row_of k (keep_wanted wanted gs) ≡ (if contains k wanted then row_of k gs else none)
unfolding row_of keep_wanted
row_of-keep_wanted k wanted [] = ground arith
row_of-keep_wanted k wanted (g ∷ gs) =
    ground (arith, row_of-keep_wanted k wanted gs, eq_iff g.game_id k)

pub keep_wanted-Unique :
    (wanted : Dict FestivalGame) (gs : List FestivalGameRow)
    → Unique gs
    → Unique (keep_wanted wanted gs)
unfolding keep_wanted
keep_wanted-Unique wanted [] u = tt
keep_wanted-Unique wanted (g ∷ gs) u =
    ground (arith, keep_wanted-Unique wanted gs u.1, row_of-keep_wanted g.game_id wanted gs)

abbrev pub unless_found : Option FestivalGameRow → Option FestivalGameRow → Option FestivalGameRow
unless_found none r = r
unless_found (some g) r = none

pub is_existing-row_of :
    (k : String) (gs : List FestivalGameRow)
    → is_existing k gs ≡ elim (row_of k gs) [ none ↦ false | some g ↦ true ]
unfolding is_existing row_of
is_existing-row_of k [] = refl
is_existing-row_of k (g ∷ gs) = ground (arith, is_existing-row_of k gs)

pub row_of-missing_rows :
    (k festival_id : String) (existing : List FestivalGameRow) (wanted : Dict FestivalGame)
    → Keyed wanted
    → row_of k (missing_rows festival_id existing wanted)
      ≡ unless_found (row_of k existing) (Option.map (new_game_row festival_id) (get k wanted))
unfolding row_of missing_rows get new_game_row
row_of-missing_rows k festival_id existing [] h = ground arith
row_of-missing_rows k festival_id existing ((j, g) ∷ wanted) h = ground (
  arith,
  row_of-missing_rows k festival_id existing wanted h.1,
  is_existing-row_of j existing,
  eq_iff j k,
  h.0,
)
