-- ===== src/Service/Listing/Shown.antt =====
-- What the query of `PostgresFestivalRepository.list` asks for: its rows, and their order.
use festival_service.Prelude.{
  ◌<◌, String, Bool, true, ◌≡◌, refl, ◌⊎◌, inl, inr, Option, none, some, List, [], ◌∷◌, Bool-cases,
  eq_iff, eq_refl, arith,
}
use festival_service.Datetime.{instant}
use festival_service.Dict.{Dict}
use festival_service.Rows.{FestivalRow}
use festival_service.Festival.{FestivalState, state_text}
use festival_service.Repositories.Listing.{in_state, matching, listed_before}
use festival_service.Sorting.{sort}
use festival_service.Sorting.Order.{Ascending, Ascending-imp, sort-Ascending}

-- The row is in the state, if one is asked for.
unfoldable pub HasState : Option FestivalState → FestivalRow → Type 0
HasState none row = Unit {0}
HasState (some state) row = row.state ≡ state_text state

-- The rows of the table that are in the state, in its order, and no others.
pub data Selects (state : Option FestivalState) : Dict FestivalRow → List FestivalRow → Type 0 where
  nothing : Selects state [] []
  keep :
      {k : String} {row : FestivalRow} {rows : Dict FestivalRow} {l : List FestivalRow}
      → HasState state row
      → Selects state rows l
      → Selects state ((k, row) ∷ rows) (row ∷ l)
  skip :
      {k : String} {row : FestivalRow} {rows : Dict FestivalRow} {l : List FestivalRow}
      → ¬ HasState state row
      → Selects state rows l
      → Selects state ((k, row) ∷ rows) l

in_state-HasState :
    (state : Option FestivalState) (row : FestivalRow)
    → in_state state row ≡ true
    → HasState state row
unfolding HasState
in_state-HasState none row h = tt
in_state-HasState (some state) row h = (eq_iff row.state (state_text state)).0 h

HasState-in_state :
    (state : Option FestivalState) (row : FestivalRow)
    → HasState state row
    → in_state state row ≡ true
unfolding HasState
HasState-in_state none row h = refl
HasState-in_state (some state) row h = rw h (eq_refl (state_text state))

pub matching-Selects :
    (state : Option FestivalState) (rows : Dict FestivalRow)
    → Selects state rows (matching state rows)
unfolding matching
matching-Selects state [] = nothing
matching-Selects state ((k, row) ∷ rows) = elim (Bool-cases (in_state state row)) [
  | inl shown ↦
      rw (matching, shown) (keep (in_state-HasState state row shown) (matching-Selects state rows))
  | inr hidden ↦
      rw (matching, hidden)
        (skip (λ h. let shown = HasState-in_state state row h in absurd (ground arith))
          (matching-Selects state rows))
]

module _ (id_le : String → String → Bool) where
  -- The later start comes first; of two that start at once, the one with the lesser id.
  unfoldable pub Precedes : FestivalRow → FestivalRow → Type 0
  Precedes a b =
      (instant b.starts_at < instant a.starts_at)
      ⊎ ((instant a.starts_at ≡ instant b.starts_at) × (id_le a.id b.id ≡ true))

  listed_before-Precedes : (a b : FestivalRow) → listed_before id_le a b ≡ true → Precedes a b
  unfolding listed_before Precedes
  listed_before-Precedes a b h = ground arith

  pub listed-Ascending :
      ((s t : String) → (id_le s t ≡ true) ⊎ (id_le t s ≡ true))
      → ((s t u : String) → id_le s t ≡ true → id_le t u ≡ true → id_le s u ≡ true)
      → (rows : List FestivalRow) → Ascending Precedes (sort (listed_before id_le) rows)
  unfolding listed_before
  listed-Ascending total trans rows =
      Ascending-imp (λ a b. listed_before id_le a b ≡ true) Precedes
        (sort (listed_before id_le) rows) listed_before-Precedes
        (sort-Ascending (listed_before id_le)
          (λ a b. elim (total a.id b.id) [ inl first ↦ ground arith | inr back ↦ ground arith ])
          (λ a b c p q. let ids = trans a.id b.id c.id in ground arith) rows)
