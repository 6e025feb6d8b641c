-- ===== src/Repositories/Listing.antt =====
-- `list` and `find_by_game` of `PostgresFestivalRepository`. `id_le` is the order of the ids in the
-- database's collation; `find_by_game` asks for no order, and gets that of the table.
use festival_service.Prelude.{
  ℕ, String, Bool, true, false, ◌&&◌, ◌||◌, ◌==◌, Option, none, some, List, [], ◌∷◌, ltb, nat_eq,
  length, take, drop, if◌then◌else◌,
}
use festival_service.Datetime.{instant}
use festival_service.Dict.{Dict}
use festival_service.Sorting.{sort}
use festival_service.Errors.{Result, ok, ◌>>=◌}
use festival_service.Exec.{Exec, query}
use festival_service.Rows.{FestivalRow, FestivalGameRow}
use festival_service.Festival.{Festival, FestivalState, state_text, draft, active}
use festival_service.Repositories.Mapping.{to_festival}

-- `WHERE state = :state`, if a state is given.
abbrev pub in_state : Option FestivalState → FestivalRow → Bool
in_state none row = true
in_state (some state) row = row.state == state_text state

unfoldable pub matching : Option FestivalState → Dict FestivalRow → List FestivalRow
unfolding state_text
matching state [] = []
matching state ((k, row) ∷ rows) =
    let rest = matching state rows in if in_state state row then row ∷ rest else rest

-- `ORDER BY starts_at DESC, id`
unfoldable pub listed_before : (String → String → Bool) → FestivalRow → FestivalRow → Bool
listed_before id_le a b =
    ltb (instant b.starts_at) (instant a.starts_at)
    || (nat_eq (instant a.starts_at) (instant b.starts_at) && id_le a.id b.id)

-- `[_to_festival(r) for r in rows]`
unfoldable pub to_festivals : List FestivalRow → Result (List Festival)
unfolding to_festival
to_festivals [] = ok []
to_festivals (row ∷ rows) =
    let rest = to_festivals rows in to_festival row >>= λ f. rest >>= λ fs. ok (f ∷ fs)

unfoldable pub list :
    (String → String → Bool) → ℕ → ℕ → Option FestivalState → Exec (List Festival × ℕ)
unfolding matching listed_before sort to_festivals query
list id_le limit offset state = query λ d.
    let rows = matching state d.festivals in
    to_festivals (take limit (drop offset (sort (listed_before id_le) rows))) >>= λ festivals.
    ok (festivals, length rows)

-- The rows of `festival_games` that name the game.
unfoldable pub has_game : String → List FestivalGameRow → Bool
has_game game_id [] = false
has_game game_id (g ∷ games) = (g.game_id == game_id) || has_game game_id games

unfoldable pub with_game : String → Dict FestivalRow → List FestivalRow
unfolding has_game state_text
with_game game_id [] = []
with_game game_id ((k, row) ∷ rows) =
    let rest = with_game game_id rows in
    if has_game game_id row.games
      && (row.state == state_text draft || row.state == state_text active)
    then row ∷ rest
    else rest

unfoldable pub find_by_game : String → Exec (List Festival)
unfolding with_game to_festivals query
find_by_game game_id = query (λ d. to_festivals (with_game game_id d.festivals))
