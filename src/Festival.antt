-- ===== src/Festival.antt =====
-- app/domain/festival.py: the `Festival` aggregate. A method that mutates the object returns the
-- new value, or the exception that it raises before any field is written.
pub mod Commands
pub mod Invariant
pub mod Lifecycle
pub mod Selection
pub mod Window
mod Tests
use festival_service.Prelude.{
  ℕ, String, Bool, true, false, not, ◌||◌, Option, none, some, List, [], ◌∷◌, ltb,
}
use festival_service.Prelude as P
use festival_service.Text
use festival_service.Datetime.{Datetime, compare_le}
use festival_service.Dict.{Dict, contains, set, del}
use festival_service.Errors.{
  Exception, Result, ok, raise_if, ◌>>=◌, ◌>>◌, invalid_argument, not_found, already_exists,
  conflict, failed_precondition,
}

abbrev pub name_max : ℕ
name_max = 200

abbrev pub description_max : ℕ
description_max = 4000

abbrev pub reason_wrong_state : String
reason_wrong_state = "FESTIVAL_WRONG_STATE"

abbrev pub reason_bad_window : String
reason_bad_window = "FESTIVAL_WINDOW_INVALID"

abbrev pub reason_name_required : String
reason_name_required = "FESTIVAL_NAME_REQUIRED"

abbrev pub reason_game_already_selected : String
reason_game_already_selected = "GAME_ALREADY_IN_FESTIVAL"

abbrev pub reason_game_not_selected : String
reason_game_not_selected = "GAME_NOT_IN_FESTIVAL"

abbrev pub reason_no_games : String
reason_no_games = "FESTIVAL_HAS_NO_GAMES"

pub data FestivalState : Type 0 where
  draft active ended cancelled : FestivalState

-- `str(state)`
unfoldable pub state_text : FestivalState → String
state_text draft = "DRAFT"
state_text active = "ACTIVE"
state_text ended = "ENDED"
state_text cancelled = "CANCELLED"

-- membership in `_EDITABLE`
unfoldable pub is_editable : FestivalState → Bool
is_editable draft = true
is_editable active = true
is_editable _ = false

unfoldable pub is_draft : FestivalState → Bool
is_draft draft = true
is_draft _ = false

unfoldable pub is_active : FestivalState → Bool
is_active active = true
is_active _ = false

pub record FestivalGame : Type 0 where
  pub game_id : String
  pub title : String
  pub developer_id : String
  pub added_by : String
  pub added_at : Datetime

pub record Festival : Type 0 where
  pub id : String
  pub name : String
  pub description : String
  pub starts_at : Datetime
  pub ends_at : Datetime
  pub state : FestivalState
  pub created_by : String
  pub created_at : Datetime
  pub started_at : Option Datetime
  pub ended_at : Option Datetime
  pub games : Dict FestivalGame
  pub version : ℕ

-- `_check_window`
unfoldable pub check_window : Datetime → Datetime → Datetime → Result (Unit {0})
unfolding compare_le
check_window starts_at ends_at now = do
  raise_if (← compare_le ends_at starts_at)
      (invalid_argument "a festival must end after it starts" reason_bad_window)
  raise_if (← compare_le ends_at now)
      (invalid_argument "a festival cannot end in the past" reason_bad_window)

-- The conflict that a method raises in the wrong state.
unfoldable pub wrong_state : String → FestivalState → Exception
wrong_state action state =
    conflict (Text.f_string ("cannot " ∷ action ∷ " a festival that is " ∷ state_text state ∷ []))
      reason_wrong_state (("state", state_text state) ∷ [])

-- `_require_editable`
unfoldable pub require_editable : Festival → String → Result (Unit {0})
unfolding is_editable wrong_state
require_editable f action = raise_if (not (is_editable f.state)) (wrong_state action f.state)

-- `Festival.create`
unfoldable pub create :
    String → String → String → Datetime → Datetime → String → Datetime → Result Festival
unfolding check_window
create festival_id name description starts_at ends_at created_by now = do
  let stripped = Text.strip name
  raise_if (Text.is_empty stripped)
      (invalid_argument "a festival needs a name" reason_name_required)
  raise_if (ltb name_max (Text.length stripped))
      (invalid_argument "a festival name is at most 200 characters" reason_name_required)
  check_window starts_at ends_at now
  ok (record {
    id = festival_id;
    name = stripped;
    description = Text.take description_max (Text.strip description);
    starts_at = starts_at;
    ends_at = ends_at;
    state = draft;
    created_by = created_by;
    created_at = now;
    started_at = none;
    ended_at = none;
    games = [];
    version = 0;
  })

unfoldable pub reschedule : Festival → Datetime → Datetime → Datetime → Result Festival
unfolding check_window is_draft wrong_state
reschedule f starts_at ends_at now = do
  raise_if (not (is_draft f.state)) (wrong_state "reschedule" f.state)
  check_window starts_at ends_at now
  ok (record f { starts_at = starts_at; ends_at = ends_at })

unfoldable pub add_game : Festival → String → String → String → String → Datetime → Result Festival
unfolding require_editable
add_game f game_id title developer_id added_by now = do
  require_editable f "add a game to"
  raise_if (contains game_id f.games) (
      already_exists (Text.f_string ("game " ∷ game_id ∷ " is already in this festival" ∷ []))
        reason_game_already_selected)
  ok (record f {
    games =
        set game_id
          (record {
            game_id = game_id;
            title = title;
            developer_id = developer_id;
            added_by = added_by;
            added_at = now;
          })
          f.games;
  })

unfoldable pub remove_game : Festival → String → Result Festival
unfolding require_editable
remove_game f game_id = do
  require_editable f "remove a game from"
  raise_if (not (contains game_id f.games)) (
      not_found (Text.f_string ("game " ∷ game_id ∷ " is not in this festival" ∷ []))
        reason_game_not_selected)
  ok (record f { games = del game_id f.games })

unfoldable pub start : Festival → Datetime → Result Festival
unfolding is_draft wrong_state
start f now = do
  raise_if (not (is_draft f.state)) (wrong_state "start" f.state)
  raise_if (P.is_empty f.games) (
      failed_precondition "a festival needs at least one selected game before it can start"
        reason_no_games)
  ok (record f { state = active; started_at = some now })

-- `Festival.end`
unfoldable pub end_festival : Festival → Datetime → Result Festival
unfolding is_active wrong_state
end_festival f now = do
  raise_if (not (is_active f.state)) (wrong_state "end" f.state)
  ok (record f { state = ended; ended_at = some now })

unfoldable pub cancel : Festival → Datetime → Result Festival
unfolding is_draft is_active wrong_state
cancel f now = do
  raise_if (not (is_draft f.state || is_active f.state)) (wrong_state "cancel" f.state)
  ok (record f { state = cancelled; ended_at = some now })
