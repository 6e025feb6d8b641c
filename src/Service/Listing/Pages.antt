-- ===== src/Service/Listing/Pages.antt =====
-- The pages that `FestivalService.list` of app/application/festival_service.py answers with.
use mathlib.Core.List.{Permᴰ}
use festival_service.Prelude.{
  ℕ, zero, suc, String, Bool, ◌≡◌, refl, sym, ap, ◌∙◌, inl, inr, Option, none, some, List, [], ◌∷◌,
  map, All, length, take, drop, ◌==◌, Bool-cases, eq_iff, eq_refl, arith,
}
use festival_service.Dict.{Dict, get, Distinct}
use festival_service.Sorting.{sort}
use festival_service.Sorting.Order.{sort-All, sort-Permᴰ, length-sort}
use festival_service.Errors.{ok, Result-cases}
use festival_service.Exec.{idle}
use festival_service.Runtime.{Runtime}
use festival_service.Rows.{Database, FestivalRow}
use festival_service.Festival.{Festival, FestivalState}
use festival_service.Repositories.Mapping.{to_festival}
use festival_service.Repositories.Listing
use festival_service.Repositories.Listing.{in_state, matching, listed_before, to_festivals}
use festival_service.Dto.{festival_view}
use festival_service.Service.Session.{DatabaseIsValid}
use festival_service.Service.Listing.{list}

abbrev Loads : FestivalRow → Type 0
Loads row = (f : Festival) × (to_festival row ≡ ok f)

-- What holds of every row that a lookup finds holds of every row of a table.
rows-All :
    (P : FestivalRow → Type 0) (rows : Dict FestivalRow)
    → Distinct rows
    → ((k : String) (row : FestivalRow) → get k rows ≡ some row → P row)
    → All (λ (e : String × FestivalRow). P e.1) rows
unfolding get
rows-All P [] distinct found = tt
rows-All P ((j, row) ∷ rows) (fresh, distinct) found = (
  found j row (rw eq_refl refl),
  rows-All P rows distinct (λ k x here. elim (Bool-cases (j == k)) [
    | inl same ↦
        let equal = (eq_iff j k).0 same in
        let missing : get k rows ≡ none = rw equal at fresh in ground arith
    | inr other ↦ found k x (rw other here)
  ]),
)

matching-All :
    (P : FestivalRow → Type 0) (state : Option FestivalState) (rows : Dict FestivalRow)
    → All (λ (e : String × FestivalRow). P e.1) rows
    → All P (matching state rows)
unfolding matching
matching-All P state [] hs = tt
matching-All P state ((k, row) ∷ rows) (h, hs) = elim (Bool-cases (in_state state row)) [
  | inl shown ↦ rw (matching, shown) (h, matching-All P state rows hs)
  | inr hidden ↦ rw (matching, hidden) (matching-All P state rows hs)
]

to_festivals-Loads :
    (rows : List FestivalRow)
    → All Loads rows
    → (all : List Festival) × (to_festivals rows ≡ ok all)
unfolding to_festivals
to_festivals-Loads [] hs = ([], refl)
to_festivals-Loads (row ∷ rows) ((f, e), hs) =
    let (fs, es) = to_festivals-Loads rows hs in (f ∷ fs, rw (e, es) refl)

-- The rows that a list starts with.
to_festivals_parts :
    (row : FestivalRow) (rows : List FestivalRow) (all : List Festival)
    → to_festivals (row ∷ rows) ≡ ok all
    → (f : Festival) × (fs : List Festival) × (to_festival row ≡ ok f)
      × (to_festivals rows ≡ ok fs)
      × (all ≡ f ∷ fs)
unfolding to_festivals
to_festivals_parts row rows all loaded = elim (Result-cases (to_festival row)) [
  | inr (e, bad) ↦ ground arith
  | inl (f, good) ↦ elim (Result-cases (to_festivals rows)) [
    | inr (e, bad) ↦ ground arith
    | inl (fs, rest) ↦ (
      f,
      fs,
      good,
      rest,
      (let same : ok (f ∷ fs) ≡ ok all = rw (to_festivals, good, rest) at loaded in cc),
    )
  ]
]

pub length-to_festivals :
    (rows : List FestivalRow) (all : List Festival)
    → to_festivals rows ≡ ok all
    → length all ≡ length rows
unfolding to_festivals
length-to_festivals [] all loaded = let same : [] ≡ all = cc in ap length (sym same)
length-to_festivals (row ∷ rows) all loaded =
    let (f, fs, good, rest, same) = to_festivals_parts row rows all loaded in
    ap length same ∙ ap suc (length-to_festivals rows fs rest)

to_festivals-take :
    (n : ℕ) (rows : List FestivalRow) (all : List Festival)
    → to_festivals rows ≡ ok all
    → to_festivals (take n rows) ≡ ok (take n all)
unfolding to_festivals
to_festivals-take zero rows all loaded = refl
to_festivals-take (suc n) [] all loaded =
    let same : [] ≡ all = cc in ap (λ l. ok (take (suc n) l)) same
to_festivals-take (suc n) (row ∷ rows) all loaded =
    let (f, fs, good, rest, same) = to_festivals_parts row rows all loaded in
    let first = to_festivals-take n rows fs rest in
    rw (to_festivals, good, first) (ap (λ l. ok (take (suc n) l)) (sym same))

to_festivals-drop :
    (n : ℕ) (rows : List FestivalRow) (all : List Festival)
    → to_festivals rows ≡ ok all
    → to_festivals (drop n rows) ≡ ok (drop n all)
unfolding to_festivals
to_festivals-drop zero rows all loaded = loaded
to_festivals-drop (suc n) [] all loaded =
    let same : [] ≡ all = cc in ap (λ l. ok (drop (suc n) l)) same
to_festivals-drop (suc n) (row ∷ rows) all loaded =
    let (f, fs, good, rest, same) = to_festivals_parts row rows all loaded in
    to_festivals-drop n rows fs rest ∙ ap (λ l. ok (drop (suc n) l)) (sym same)

module _ (rt : Runtime) (id_le : String → String → Bool) (d : Database)
    (state : Option FestivalState) where
  -- The rows of the festivals in the state, in the order of the list.
  abbrev pub listed : List FestivalRow
  listed = sort (listed_before id_le) (matching state d.festivals)

  listed_ok :
      Distinct d.festivals
      → DatabaseIsValid rt d
      → (all : List Festival) × (to_festivals listed ≡ ok all)
  listed_ok distinct valid = to_festivals-Loads listed (
      sort-All Loads (listed_before id_le) _ (
        matching-All Loads state d.festivals (
          rows-All Loads d.festivals distinct (λ k row here.
            let (f, row_valid, same) = valid.festival_at k row here in (f, row_valid.loads)))))

  -- On a valid database every request for a page is answered with that part of one list, the
  -- festivals in the state as they are sorted, with the number of these festivals, and changes
  -- nothing. The list has each of them once.
  pub list_lem :
      (limit offset : ℕ)
      → Distinct d.festivals
      → DatabaseIsValid rt d
      → (all : List Festival) × (to_festivals listed ≡ ok all)
        × Permᴰ (matching state d.festivals) listed
        × (list id_le limit offset state (idle d) ≡ (
          ok (record {
            items = map festival_view (take limit (drop offset all));
            total = length all;
            limit = limit;
            offset = offset;
          }),
          idle d,
        ))
  unfolding list Listing.list
  list_lem limit offset distinct valid =
      let (all, loaded) = listed_ok distinct valid in
      let shown =
        to_festivals-take limit (drop offset listed) (drop offset all)
          (to_festivals-drop offset listed all loaded) in
      let count =
        length-to_festivals listed all loaded
        ∙ length-sort (listed_before id_le) (matching state d.festivals) in
      (
        all,
        loaded,
        sort-Permᴰ (listed_before id_le) (matching state d.festivals),
        rw (list, Listing.list, shown, count) refl,
      )
