-- ===== src/Repositories/Festivals.antt =====
-- `PostgresFestivalRepository` of app/adapters/outbound/repositories.py.
use festival_service.Prelude.{
  ◌+◌, String, Bool, true, false, not, Option, none, some, List, [], ◌∷◌, ◌++◌, nat_eq,
  if◌then◌else◌, ◌==◌ as str_eq,
}
use festival_service.Text.{f_string}
use festival_service.Dict.{Dict, get, set, contains}
use festival_service.Errors.{
  Exception, Result, ok, err, not_found, conflict, integrity_error, ◌>>=◌,
}
use festival_service.Exec.{Exec, in_session, query}
use festival_service.Rows.{Database, FestivalRow, FestivalGameRow}
use festival_service.Festival.{Festival, FestivalGame, state_text}
use festival_service.Repositories.Mapping.{to_festival}

abbrev pub festival_not_found : String → Exception
festival_not_found festival_id =
    not_found (f_string ("festival " ∷ festival_id ∷ " was not found" ∷ [])) ""

-- The row that `add` inserts; the columns that it leaves out take their defaults.
unfoldable pub new_row : Festival → FestivalRow
new_row f = record {
  id = f.id;
  name = f.name;
  description = f.description;
  state = state_text f.state;
  starts_at = f.starts_at;
  ends_at = f.ends_at;
  created_by = f.created_by;
  created_at = f.created_at;
  started_at = none;
  ended_at = none;
  version = 0;
  games = [];
}

unfoldable pub insert_row : Festival → Database → Result (Unit {0}) × Database
unfolding new_row contains
insert_row f d =
    if contains f.id d.festivals
    then (err integrity_error, d)
    else (ok tt, record d { festivals = set f.id (new_row f) d.festivals })

-- `add`: the flush fails on a primary key that is taken.
unfoldable pub add : Festival → Exec (Unit {0})
unfolding insert_row in_session
add f = in_session (insert_row f)

unfoldable pub load : String → Database → Result (Option Festival)
unfolding to_festival
load festival_id d = elim (get festival_id d.festivals) [
  | none ↦ ok none
  | some row ↦ do f ← to_festival row; ok (some f)
]

-- `get`
unfoldable pub find : String → Exec (Option Festival)
unfolding load query
find festival_id = query (load festival_id)

-- `get_for_update`: the same read, under a row lock that is held to the end of the transaction.
unfoldable pub get_for_update : String → Exec (Option Festival)
unfolding load query
get_for_update festival_id = query (load festival_id)

unfoldable pub new_game_row : String → FestivalGame → FestivalGameRow
new_game_row festival_id g = record {
  festival_id = festival_id;
  game_id = g.game_id;
  title = g.title;
  developer_id = g.developer_id;
  added_by = g.added_by;
  added_at = g.added_at;
}

-- The first loop over the games in `save`: the rows whose game is still wanted stay.
unfoldable pub keep_wanted : Dict FestivalGame → List FestivalGameRow → List FestivalGameRow
keep_wanted wanted [] = []
keep_wanted wanted (g ∷ gs) =
    let rest = keep_wanted wanted gs in if contains g.game_id wanted then g ∷ rest else rest

-- `game_id in existing`
unfoldable pub is_existing : String → List FestivalGameRow → Bool
is_existing game_id [] = false
is_existing game_id (g ∷ gs) = if str_eq g.game_id game_id then true else is_existing game_id gs

-- The second loop: a row for each wanted game that has none.
unfoldable pub missing_rows :
    String → List FestivalGameRow → Dict FestivalGame → List FestivalGameRow
missing_rows festival_id existing [] = []
missing_rows festival_id existing ((game_id, g) ∷ wanted) =
    let rest = missing_rows festival_id existing wanted in
    if is_existing game_id existing then rest else new_game_row festival_id g ∷ rest

unfoldable pub sync_games : String → List FestivalGameRow → Dict FestivalGame → List FestivalGameRow
unfolding keep_wanted is_existing missing_rows new_game_row
sync_games festival_id existing wanted =
    keep_wanted wanted existing ++ missing_rows festival_id existing wanted

-- The assignments of `save`, on the row that it found.
unfoldable pub updated_row : Festival → FestivalRow → FestivalRow
unfolding sync_games
updated_row f row = record row {
  name = f.name;
  description = f.description;
  state = state_text f.state;
  starts_at = f.starts_at;
  ends_at = f.ends_at;
  started_at = f.started_at;
  ended_at = f.ended_at;
  version = f.version + 1;
  games = sync_games f.id row.games f.games;
}

abbrev pub modified : String → Exception
modified festival_id =
    conflict (f_string ("festival " ∷ festival_id ∷ " was modified by another request; retry" ∷ []))
      "CONCURRENT_MODIFICATION" []

-- `session.get` gives the row as the session has it, which in a request is the one that
-- `get_for_update` has read: the versions differ only for a festival from another transaction.
unfoldable pub write : Festival → Database → Result Festival × Database
unfolding updated_row
write f d = elim (get f.id d.festivals) [
  | none ↦ (err (festival_not_found f.id), d)
  | some row ↦ if not (nat_eq row.version f.version) then (err (modified f.id), d) else (
    ok (record f { version = f.version + 1 }),
    record d { festivals = set f.id (updated_row f row) d.festivals },
  )
]

-- `save`; it sets the version on the object that it is given, which is what it returns here.
unfoldable pub save : Festival → Exec Festival
unfolding write in_session
save f = in_session (write f)
