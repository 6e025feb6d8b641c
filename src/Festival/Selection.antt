-- ===== src/Festival/Selection.antt =====
-- Selecting games into a festival: `add_game` and `remove_game` of app/domain/festival.py.
use festival_service.Prelude.{
  String, ◌≡◌, true, none, ◌++◌, [], ◌∷◌, arith, eq_refl, if◌then◌else◌, ◌==◌,
}
use festival_service.Datetime.{Datetime}
use festival_service.Dict.{get, contains}
use festival_service.Dict.Laws.{get-set, get-del, set_absent, del-set_absent}
use festival_service.Errors.{ok, Raises, already_exists_code, not_found_code}
use festival_service.Festival.{
  Festival, FestivalGame, is_editable, add_game, remove_game, reason_game_already_selected,
  reason_game_not_selected,
}

module _ (f : Festival) (game_id title developer_id added_by : String) (now : Datetime) where
  abbrev pub selected : FestivalGame
  selected = record {
    game_id = game_id;
    title = title;
    developer_id = developer_id;
    added_by = added_by;
    added_at = now;
  }

  -- In an editable festival a game that is not selected yet is appended to the game list, and
  -- nothing else changes.
  pub add_game_new :
      is_editable f.state ≡ true
      → get game_id f.games ≡ none
      → add_game f game_id title developer_id added_by now
        ≡ ok (record f { games = f.games ++ (game_id, selected) ∷ [] })
  unfolding add_game contains
  add_game_new e absent = ground (arith, set_absent game_id selected f.games)

  -- A game that is selected already is refused.
  add_game_twice :
      {g : Festival} (title' developer_id' added_by' : String) (now' : Datetime)
      → add_game f game_id title developer_id added_by now ≡ ok g
      → Raises already_exists_code reason_game_already_selected
          (add_game g game_id title' developer_id' added_by' now')
  unfolding add_game contains
  add_game_twice title' developer_id' added_by' now' h =
      ground (arith, get-set game_id game_id selected f.games, eq_refl game_id)

  -- Removing a game that has just been added gives the festival back as it was.
  remove_game-add_game :
      {g : Festival}
      → add_game f game_id title developer_id added_by now ≡ ok g
      → remove_game g game_id ≡ ok f
  unfolding add_game remove_game contains
  remove_game-add_game h = ground (
    arith,
    get-set game_id game_id selected f.games,
    eq_refl game_id,
    del-set_absent game_id selected f.games,
  )

-- After a removal the removed game is not selected, every other game is selected as before, and the
-- same removal is refused.
remove_game_lem :
    (f : Festival) (game_id : String) {g : Festival} (k : String)
    → remove_game f game_id ≡ ok g
    → (get k g.games ≡ (if game_id == k then none else get k f.games))
      × Raises not_found_code reason_game_not_selected (remove_game g game_id)
unfolding remove_game contains
remove_game_lem f game_id k h = (
  ground (arith, get-del k game_id f.games),
  ground (arith, get-del game_id game_id f.games, eq_refl game_id),
)
