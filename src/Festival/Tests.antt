-- ===== src/Festival/Tests.antt =====
-- The festival aggregate at concrete inputs.
use festival_service.Prelude.{◌≡◌, refl, none, some, List, [], ◌∷◌, arith}
use festival_service.Datetime.{aware, naive}
use festival_service.Errors.{ok, err, type_error}
use festival_service.Festival
use festival_service.Festival.{Festival, draft, ended, create}
use festival_service.Festival.Commands
use festival_service.Festival.Commands.{Command, apply, run}
use festival_service.Festival.Invariant.{IsValid, create-IsValid, run-IsValid}
use festival_service.Festival.Lifecycle.{Reaches, run-Reaches}
use festival_service.Festival.Selection.{selected}
use festival_service.Festival.Window.{create_naive_window}

abbrev planned : Festival
planned = record {
  id = "f1";
  name = "Summer";
  description = "Sun";
  starts_at = aware 20;
  ends_at = aware 30;
  state = draft;
  created_by = "admin";
  created_at = aware 10;
  started_at = none;
  ended_at = none;
  games = [];
  version = 0;
}

abbrev with_game : Festival
with_game = record planned {
  games = ("g1", selected planned "g1" "Go" "dev" "admin" (aware 11)) ∷ [];
}

abbrev over : Festival
over = record with_game { state = ended; started_at = some (aware 20); ended_at = some (aware 25) }

created : create "f1" " Summer " "Sun" (aware 20) (aware 30) "admin" (aware 10) ≡ ok planned
unfolding create Festival.Text.is_empty Festival.Text.strip Festival.Text.length Festival.Text.take
created = refl

planned-IsValid : IsValid planned
planned-IsValid =
    create-IsValid "f1" " Summer " "Sun" (aware 20) (aware 30) "admin" (aware 10) created

added : Festival.add_game planned "g1" "Go" "dev" "admin" (aware 11) ≡ ok with_game
unfolding Festival.add_game festival_service.Dict.contains festival_service.Dict.set
added = refl

abbrev season : List Command
season =
    Commands.start (aware 12)
    ∷ Commands.add_game "g1" "Go" "dev" "admin" (aware 11)
    ∷ Commands.start (aware 20)
    ∷ Commands.reschedule (aware 1) (aware 2) (aware 21)
    ∷ Commands.end_festival (aware 25)
    ∷ Commands.cancel (aware 26)
    ∷ []

season_ends : run planned season ≡ over
unfolding run apply festival_service.Dict.contains festival_service.Dict.set
season_ends = refl

run-IsValid_example : IsValid (run planned season)
run-IsValid_example = run-IsValid planned season planned-IsValid

run-Reaches_example : Reaches draft (run planned season).state
run-Reaches_example = run-Reaches planned season

removed : Festival.remove_game with_game "g1" ≡ ok planned
unfolding Festival.remove_game festival_service.Dict.contains festival_service.Dict.del
removed = refl

create_naive_window_example :
    create "f1" "Summer" "" (naive 20) (naive 30) "admin" (aware 10) ≡ err type_error
unfolding Festival.create Festival.Text.is_empty Festival.Text.strip Festival.Text.length
create_naive_window_example =
    create_naive_window "f1" "Summer" "" "admin" 20 30 10 refl (omega arith) (omega arith)
