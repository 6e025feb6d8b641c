-- ===== src/Repositories/RoundTrip.antt =====
-- Writing a festival back and loading it again: `save` against `_to_festival`.
use festival_service.Prelude.{◌+◌, String, ◌≡◌, refl, ◌⊎◌, inl, none, some, [], arith, eq_iff}
use festival_service.Dict.{get, contains}
use festival_service.Dict.Laws.{get-set, get-del}
use festival_service.Errors.{ok}
use festival_service.Rows.{FestivalRow, FestivalGameRow}
use festival_service.Festival.{
  Festival, FestivalGame, FestivalState, draft, active, ended, cancelled, state_text,
}
use festival_service.Festival.Invariant.{IsValid}
use festival_service.Festival.Commands.{
  Command, reschedule, add_game, remove_game, start, end_festival, cancel, apply,
}
use festival_service.Repositories.Mapping.{to_festival, to_festival_game, state_of_text}
use festival_service.Repositories.Festivals.{updated_row, sync_games}
use festival_service.Repositories.Games.{
  Unique, loaded, get-loaded, loaded-Distinct, loaded-Keyed, row_of,
}
use festival_service.Repositories.Sync.{sync_games-Unique, get-loaded-sync_games}

-- The same festival up to the order of its games.
pub record SameFestival (f g : Festival) : Type 0 where
  pub fields : ◌≡◌ {A = Festival} (record f { games = [] }) (record g { games = [] })
  pub games : (k : String) → get k f.games ≡ get k g.games

-- A row that loads as a valid festival.
pub record RowIsValid (row : FestivalRow) (f : Festival) : Type 0 where
  pub loads : to_festival row ≡ ok f
  pub valid : IsValid f
  pub unique : Unique row.games

-- What a command leaves alone: the identity of the festival, and the data of each game.
pub record Derives (f g : Festival) : Type 0 where
  pub id : g.id ≡ f.id
  pub created_by : g.created_by ≡ f.created_by
  pub created_at : g.created_at ≡ f.created_at
  pub version : g.version ≡ f.version
  pub agree :
      (k : String) (h : FestivalGame)
      → get k g.games ≡ some h
      → (get k f.games ≡ some h) ⊎ (get k f.games ≡ none)

pub apply-Derives : (f : Festival) (c : Command) {g : Festival} → apply f c ≡ ok g → Derives f g
unfolding apply contains
apply-Derives f (reschedule s e now) h = record {
  id = ground arith;
  created_by = ground arith;
  created_at = ground arith;
  version = ground arith;
  agree = λ k x e'. inl (ground arith);
}
apply-Derives f (add_game j t d b now) {g} h = record {
  id = ground arith;
  created_by = ground arith;
  created_at = ground arith;
  version = ground arith;
  agree = λ k x e. ground (
    arith,
    get-set k j (record { game_id = j; title = t; developer_id = d; added_by = b; added_at = now })
        f.games,
    eq_iff j k,
  );
}
apply-Derives f (remove_game j) h = record {
  id = ground arith;
  created_by = ground arith;
  created_at = ground arith;
  version = ground arith;
  agree = λ k x e. ground (arith, get-del k j f.games);
}
apply-Derives f (start now) h = record {
  id = ground arith;
  created_by = ground arith;
  created_at = ground arith;
  version = ground arith;
  agree = λ k x e. inl (ground arith);
}
apply-Derives f (end_festival now) h = record {
  id = ground arith;
  created_by = ground arith;
  created_at = ground arith;
  version = ground arith;
  agree = λ k x e. inl (ground arith);
}
apply-Derives f (cancel now) h = record {
  id = ground arith;
  created_by = ground arith;
  created_at = ground arith;
  version = ground arith;
  agree = λ k x e. inl (ground arith);
}

-- The text of a state is read back as the state.
pub state_of_text-state_text : (s : FestivalState) → state_of_text (state_text s) ≡ ok s
unfolding state_of_text state_text
state_of_text-state_text draft = refl
state_of_text-state_text active = refl
state_of_text-state_text ended = refl
state_of_text-state_text cancelled = refl

-- What is loaded after `save` has written `g` over the row of `f`.
abbrev pub saved : Festival → FestivalRow → Festival
saved g row = record g {
  version = g.version + 1;
  games = loaded (sync_games g.id row.games g.games);
}

-- The columns of a row, in the festival that it loads as.
pub loads-fields :
    (row : FestivalRow) (f : Festival)
    → to_festival row ≡ ok f
    → (f.id ≡ row.id)
      × (f.created_by ≡ row.created_by)
      × (f.created_at ≡ row.created_at)
      × (f.version ≡ row.version)
      × (f.games ≡ loaded row.games)
unfolding to_festival
loads-fields row f h = ground arith

module _ (row : FestivalRow) (f g : Festival) (v : RowIsValid row f) (derives : Derives f g) where
  abbrev Agrees : Type 0
  Agrees =
      (k : String) (r : FestivalGameRow) (h : FestivalGame)
      → row_of k row.games ≡ some r
      → get k g.games ≡ some h
      → to_festival_game r ≡ h

  games_agree : Agrees
  games_agree k r h er eg =
      let (_, _, _, _, games) = loads-fields row f v.loads in
      let stored : get k f.games ≡ some (to_festival_game r) =
        rw (games, get-loaded k row.games v.unique, er) in
      ground (arith, stored, derives.agree k h eg)

  pub loads_saved : to_festival (updated_row g row) ≡ ok (saved g row)
  unfolding to_festival updated_row
  loads_saved =
      let (id, created_by, created_at, _, _) = loads-fields row f v.loads in
      ground (
        arith,
        state_of_text-state_text g.state,
        id,
        created_by,
        created_at,
        derives.id,
        derives.created_by,
        derives.created_at,
      )

  pub saved-IsValid : IsValid g → IsValid (saved g row)
  saved-IsValid w = record {
    window = w.window;
    named = w.named;
    name_fits = w.name_fits;
    description_fits = w.description_fits;
    distinct = loaded-Distinct (sync_games g.id row.games g.games);
    keyed = loaded-Keyed (sync_games g.id row.games g.games);
    stamped = w.stamped;
  }

  -- The row that `save` writes for a festival that a command has derived from the row's own is
  -- valid, and loads as that festival, up to the order of the games, with the next version.
  pub updated_row-RowIsValid :
      IsValid g
      → RowIsValid (updated_row g row) (saved g row)
        × SameFestival (saved g row) (record g { version = g.version + 1 })
  updated_row-RowIsValid w = (
    record {
      loads = loads_saved;
      valid = saved-IsValid w;
      unique =
          unfold updated_row in
          sync_games-Unique g.id row.games g.games v.unique w.keyed w.distinct;
    },
    record {
      fields = refl;
      games = get-loaded-sync_games g.id row.games g.games v.unique w.keyed w.distinct games_agree;
    },
  )
