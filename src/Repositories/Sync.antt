-- ===== src/Repositories/Sync.antt =====
-- `save` writes the game list back: the rows that it leaves hold exactly the games that are wanted.
use mathlib.Core.Option
use festival_service.Prelude.{
  String, ◌≡◌, refl, ap, ◌∙◌, ◌⊎◌, inl, inr, Option, none, some, List, [], ◌∷◌, arith,
  if◌then◌else◌, Option-cases,
}
use festival_service.Dict.{Dict, get, contains, Distinct}
use festival_service.Rows.{FestivalGameRow}
use festival_service.Festival.{FestivalGame}
use festival_service.Festival.Invariant.{Keyed, is_some}
use festival_service.Repositories.Mapping.{to_festival_game}
use festival_service.Repositories.Festivals.{keep_wanted, missing_rows, new_game_row, sync_games}
use festival_service.Repositories.Games.{
  row_of, Unique, game_in, loaded, get-loaded, row_of-append, append-Unique, row_of-keep_wanted,
  keep_wanted-Unique, row_of-missing_rows, is_existing-row_of, or_row, unless_found,
}

missing_rows-Unique :
    (festival_id : String) (existing : List FestivalGameRow) (wanted : Dict FestivalGame)
    → Keyed wanted
    → Distinct wanted
    → Unique (missing_rows festival_id existing wanted)
unfolding missing_rows new_game_row
missing_rows-Unique festival_id existing [] h d = tt
missing_rows-Unique festival_id existing ((j, g) ∷ wanted) h d = ground (
  arith,
  missing_rows-Unique festival_id existing wanted h.1 d.1,
  row_of-missing_rows j festival_id existing wanted h.1,
  row_of-missing_rows g.game_id festival_id existing wanted h.1,
  is_existing-row_of j existing,
  h.0,
  d.0,
)

settled :
    (festival_id : String) (r : Option FestivalGameRow) (w : Option FestivalGame)
    → ((g : FestivalGameRow) (h : FestivalGame) → r ≡ some g → w ≡ some h → to_festival_game g ≡ h)
    → game_in
        (or_row
          (if is_some w then r else none)
          (unless_found r (Option.map (new_game_row festival_id) w)))
        none
      ≡ w
unfolding new_game_row to_festival_game
settled festival_id none none agree = refl
settled festival_id none (some h) agree = refl
settled festival_id (some g) none agree = refl
settled festival_id (some g) (some h) agree = ap some (agree g h refl refl)

contains-get : (k : String) (d : Dict FestivalGame) → contains k d ≡ is_some (get k d)
unfolding contains
contains-get k d = ground arith

module _ (festival_id : String) (existing : List FestivalGameRow) (wanted : Dict FestivalGame)
    (unique : Unique existing) (keyed : Keyed wanted) (distinct : Distinct wanted) where
  kept : List FestivalGameRow
  kept = keep_wanted wanted existing

  missing : List FestivalGameRow
  missing = missing_rows festival_id existing wanted

  parts_apart : (k : String) → (row_of k kept ≡ none) ⊎ (row_of k missing ≡ none)
  unfolding kept missing
  parts_apart k = elim (Option-cases (row_of k existing)) [
    | inl absent ↦ inl (ground (arith, row_of-keep_wanted k wanted existing))
    | inr (r, present) ↦
        inr (ground (arith, row_of-missing_rows k festival_id existing wanted keyed))
  ]

  pub sync_games-Unique : Unique (sync_games festival_id existing wanted)
  unfolding sync_games kept missing
  sync_games-Unique =
      append-Unique (keep_wanted wanted existing) (missing_rows festival_id existing wanted)
        (keep_wanted-Unique wanted existing unique)
        (missing_rows-Unique festival_id existing wanted keyed distinct) parts_apart

  row_of-sync_games :
      (k : String)
      → row_of k (sync_games festival_id existing wanted)
        ≡ or_row (if contains k wanted then row_of k existing else none) (
            unless_found (row_of k existing) (Option.map (new_game_row festival_id) (get k wanted)))
  unfolding sync_games
  row_of-sync_games k = ground (
    arith,
    row_of-append k (keep_wanted wanted existing) (missing_rows festival_id existing wanted),
    row_of-keep_wanted k wanted existing,
    row_of-missing_rows k festival_id existing wanted keyed,
  )

  -- Where a wanted game has a row already, the row holds the wanted game.
  module _
      (agree : (k : String) (r : FestivalGameRow) (g : FestivalGame)
        → row_of k existing ≡ some r
        → get k wanted ≡ some g
        → to_festival_game r ≡ g) where
    -- What is loaded after the write is what was wanted, game by game.
    pub get-loaded-sync_games :
        (k : String) → get k (loaded (sync_games festival_id existing wanted)) ≡ get k wanted
    get-loaded-sync_games k =
        get-loaded k (sync_games festival_id existing wanted) sync_games-Unique
        ∙ ap (λ r. game_in r none) (row_of-sync_games k)
        ∙ rw contains-get (settled festival_id (row_of k existing) (get k wanted) (agree k))
