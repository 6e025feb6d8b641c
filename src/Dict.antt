-- ===== src/Dict.antt =====
-- Python's `dict` with text keys: its entries in insertion order, one for each key. Also the tables
-- of the database, by primary key.
pub mod Laws
use festival_service.Prelude.{
  String, Bool, true, false, Option, none, some, List, [], ◌∷◌, map, ◌==◌, if◌then◌else◌, ◌≡◌,
}

abbrev pub Dict {ℓ} : Type ℓ → Type ℓ
Dict V = List (String × V)

module _ {ℓ} {V : Type ℓ} where
  -- `d.get(k)`
  unfoldable pub get : String → Dict V → Option V
  get k [] = none
  get k ((j, v) ∷ d) = if j == k then some v else get k d

  -- `k in d`
  unfoldable pub contains : String → Dict V → Bool
  unfolding get
  contains k d = elim (get k d) [ none ↦ false | some _ ↦ true ]

  -- `d[k] = v`: an old key keeps its place, a new one comes last.
  unfoldable pub set : String → V → Dict V → Dict V
  set k v [] = (k, v) ∷ []
  set k v ((j, w) ∷ d) = if j == k then (j, v) ∷ d else (j, w) ∷ set k v d

  -- `del d[k]`
  unfoldable pub del : String → Dict V → Dict V
  del k [] = []
  del k ((j, w) ∷ d) = let rest = del k d in if j == k then rest else (j, w) ∷ rest

  unfoldable pub keys : Dict V → List String
  keys = map (λ e. e.0)

  -- One entry for each key.
  abbrev pub Distinct : Dict V → Type ℓ
  Distinct [] = Unit
  Distinct ((k, v) ∷ d) = (get k d ≡ none) × Distinct d
