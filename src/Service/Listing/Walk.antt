-- ===== src/Service/Listing/Walk.antt =====
-- A client that reads the pages of `FestivalService.list` one after the other.
use festival_service.Prelude.{
  ℕ, zero, suc, ◌+◌, ◌*◌, ◌≤◌, String, Bool, ◌≡◌, refl, sym, ap, ◌∙◌, Option, List, [], ◌∷◌, ◌++◌,
  map, length, take, drop, arith, ◌⊎◌, true,
}
use festival_service.Dict.{Distinct}
use festival_service.Errors.{Result, ok, then_run}
use festival_service.Exec.{idle}
use festival_service.Runtime.{Runtime}
use festival_service.Rows.{Database, FestivalRow}
use festival_service.Festival.{Festival, FestivalState}
use festival_service.Repositories.Listing.{matching, listed_before, to_festivals}
use festival_service.Dto.{FestivalView, festival_view}
use festival_service.Service.Session.{DatabaseIsValid}
use festival_service.Service.Listing.{list}
use festival_service.Service.Listing.Pages.{listed, list_lem, length-to_festivals}
use festival_service.Sorting.Order.{length-sort, Ascending}
use festival_service.Service.Listing.Shown.{Selects, Precedes, matching-Selects, listed-Ascending}
use mathlib.Core.List.{Permᴰ}

zero_add : (n : ℕ) → 0 + n ≡ n
zero_add n = omega arith

suc_add : (m n : ℕ) → suc m + n ≡ suc (m + n)
suc_add m n = omega arith

-- The pages of this length have so many places.
suc_mul : (n limit : ℕ) → suc n * limit ≡ limit + n * limit
suc_mul n limit = grind arith

zero_mul : (limit : ℕ) → 0 * limit ≡ 0
zero_mul limit = omega arith

module _ {ℓ} {A : Type ℓ} where
  take_nil : (n : ℕ) → ◌≡◌ {A = List A} (take n []) []
  take_nil zero = refl
  take_nil (suc n) = refl

  drop_nil : (n : ℕ) → ◌≡◌ {A = List A} (drop n []) []
  drop_nil zero = refl
  drop_nil (suc n) = refl

  take_split : (m n : ℕ) (l : List A) → take (m + n) l ≡ take m l ++ take n (drop m l)
  take_split zero n l = ap (λ k. take k l) (zero_add n)
  take_split (suc m) n [] = ap (λ k. take k []) (suc_add m n) ∙ sym (take_nil n)
  take_split (suc m) n (x ∷ l) =
      ap (λ k. take k (x ∷ l)) (suc_add m n) ∙ ap (λ t. x ∷ t) (take_split m n l)

  drop-drop : (m n : ℕ) (l : List A) → drop (m + n) l ≡ drop n (drop m l)
  drop-drop zero n l = ap (λ k. drop k l) (zero_add n)
  drop-drop (suc m) n [] = ap (λ k. drop k []) (suc_add m n) ∙ sym (drop_nil n)
  drop-drop (suc m) n (x ∷ l) = ap (λ k. drop k (x ∷ l)) (suc_add m n) ∙ drop-drop m n l

  take_all : (n : ℕ) (l : List A) → length l ≤ n → take n l ≡ l
  take_all zero [] enough = refl
  take_all zero (x ∷ l) enough = ground arith
  take_all (suc n) [] enough = refl
  take_all (suc n) (x ∷ l) enough = ap (λ t. x ∷ t) (take_all n l (ground arith))

map_append : {A B : Type 0} (f : A → B) (xs ys : List A) → map f (xs ++ ys) ≡ map f xs ++ map f ys
map_append f [] ys = refl
map_append f (x ∷ xs) ys = ap (λ t. f x ∷ t) (map_append f xs ys)

module _ (rt : Runtime) (id_le : String → String → Bool) (d : Database)
    (state : Option FestivalState) (limit : ℕ) where
  -- The festivals of so many pages, from an offset on.
  unfoldable pub walk : ℕ → ℕ → Result (List FestivalView)
  unfolding list
  walk zero offset = ok []
  walk (suc n) offset =
      then_run (list id_le limit offset state (idle d)).0
        (λ page. then_run (walk n (offset + limit)) (λ rest. ok (page.items ++ rest)))

  walk_from :
      (n offset : ℕ)
      → Distinct d.festivals
      → DatabaseIsValid rt d
      → (all : List Festival) → to_festivals (listed rt id_le d state) ≡ ok all
      → walk n offset ≡ ok (map festival_view (take (n * limit) (drop offset all)))
  unfolding walk
  walk_from zero offset distinct valid all loaded =
      ap (λ k. ok (map festival_view (take k (drop offset all)))) (sym (zero_mul limit))
  walk_from (suc n) offset distinct valid all loaded =
      let (all', loaded', perm, page) = list_lem rt id_le d state limit offset distinct valid in
      let same : all' ≡ all = cc in
      let rest = walk_from n (offset + limit) distinct valid all loaded in
      let split : take (limit + n * limit) (drop offset all)
          ≡ take limit (drop offset all) ++ take (n * limit) (drop (offset + limit) all) =
        take_split limit (n * limit) (drop offset all)
        ∙ ap (λ t. take limit (drop offset all) ++ take (n * limit) t)
            (sym (drop-drop offset limit all)) in
      rw (page, same, rest, suc_mul, split, map_append) refl

  -- On a valid database, and with a total order of ids, a client that reads enough pages of one
  -- length, one after the other, gets the festivals that are stored in the state, each once and no
  -- others, the later start first, and by their ids those that start at once.
  pub walk_all :
      (n : ℕ)
      → length (matching state d.festivals) ≤ n * limit
      → Distinct d.festivals
      → DatabaseIsValid rt d
      → ((s t : String) → (id_le s t ≡ true) ⊎ (id_le t s ≡ true))
      → ((s t u : String) → id_le s t ≡ true → id_le t u ≡ true → id_le s u ≡ true)
      → (chosen ordered : List FestivalRow) × (all : List Festival) × Selects state d.festivals
          chosen
        × Permᴰ chosen ordered
        × Ascending (Precedes id_le) ordered
        × (to_festivals ordered ≡ ok all)
        × (walk n 0 ≡ ok (map festival_view all))
  walk_all n enough distinct valid total trans =
      let (all, loaded, perm, page) = list_lem rt id_le d state limit 0 distinct valid in
      let count =
        length-to_festivals (listed rt id_le d state) all loaded
        ∙ length-sort (listed_before id_le) (matching state d.festivals) in
      let whole : take (n * limit) all ≡ all = take_all (n * limit) all (rw count enough) in
      (
        matching state d.festivals,
        listed rt id_le d state,
        all,
        matching-Selects state d.festivals,
        perm,
        listed-Ascending id_le total trans (matching state d.festivals),
        loaded,
        walk_from n 0 distinct valid all loaded ∙ ap (λ l. ok (map festival_view l)) whole,
      )
