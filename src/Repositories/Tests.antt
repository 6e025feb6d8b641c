-- ===== src/Repositories/Tests.antt =====
-- The repositories at a concrete database.
use festival_service.Prelude.{◌≡◌, refl, none, [], ◌∷◌}
use festival_service.Datetime.{aware}
use festival_service.Errors.{ok}
use festival_service.Festival.{Festival, draft, create}
use festival_service.Festival.Invariant.{IsValid, create-IsValid, apply-IsValid}
use festival_service.Festival.Commands.{apply, add_game}
use festival_service.Repositories.Games
use festival_service.Repositories.Games.{Unique}
use festival_service.Repositories.Mapping.{to_festival}
use festival_service.Repositories.RoundTrip.{
  RowIsValid, SameFestival, apply-Derives, updated_row-RowIsValid,
}
use festival_service.Repositories.Festivals.{new_row, updated_row, sync_games}

abbrev loaded : Festival
loaded = record {
  id = "f1";
  name = "Summer";
  description = "Sun";
  starts_at = aware 20;
  ends_at = aware 30;
  state = draft;
  created_by = "admin";
  created_at = aware 10;
  started_at = none;
  ended_at = none;
  games = [];
  version = 0;
}

created : create "f1" "Summer" "Sun" (aware 20) (aware 30) "admin" (aware 10) ≡ ok loaded
unfolding create festival_service.Text.is_empty festival_service.Text.strip
    festival_service.Text.length festival_service.Text.take
created = refl

loaded-IsValid : IsValid loaded
loaded-IsValid = create-IsValid "f1" "Summer" "Sun" (aware 20) (aware 30) "admin" (aware 10) created

row_loads : to_festival (new_row loaded) ≡ ok loaded
unfolding to_festival new_row festival_service.Repositories.Mapping.state_of_text
    festival_service.Festival.state_text festival_service.Sorting.sort
row_loads = refl

row-Unique : Unique (new_row loaded).games
unfolding new_row
row-Unique = tt

row-RowIsValid : RowIsValid (new_row loaded) loaded
row-RowIsValid = record { loads = row_loads; valid = loaded-IsValid; unique = row-Unique }

abbrev with_game : Festival
with_game = record loaded {
  games =
      (
        "g1",
        record {
          game_id = "g1";
          title = "Go";
          developer_id = "dev";
          added_by = "admin";
          added_at = aware 11;
        },
      )
      ∷ [];
}

added : apply loaded (add_game "g1" "Go" "dev" "admin" (aware 11)) ≡ ok with_game
unfolding apply festival_service.Dict.contains festival_service.Dict.set
added = refl

updated_row-RowIsValid_example :
    RowIsValid (updated_row with_game (new_row loaded)) (record with_game {
      version = 1;
      games = Games.loaded (sync_games "f1" (new_row loaded).games with_game.games);
    })
    × SameFestival
        (record with_game {
          version = 1;
          games = Games.loaded (sync_games "f1" (new_row loaded).games with_game.games);
        })
        (record with_game { version = 1 })
updated_row-RowIsValid_example =
    updated_row-RowIsValid (new_row loaded) loaded with_game row-RowIsValid
      (apply-Derives loaded _ added) (apply-IsValid loaded _ loaded-IsValid added)
