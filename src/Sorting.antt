-- ===== src/Sorting.antt =====
-- `ORDER BY`: a stable sort.
pub mod Order
use festival_service.Prelude.{Bool, List, [], ◌∷◌, if◌then◌else◌}

module _ {ℓ} {A : Type ℓ} (before : A → A → Bool) where
  unfoldable pub insert : A → List A → List A
  insert a [] = a ∷ []
  insert a (b ∷ l) = let rest = insert a l in if before a b then a ∷ b ∷ l else b ∷ rest

  unfoldable pub sort : List A → List A
  unfolding insert
  sort [] = []
  sort (a ∷ l) = insert a (sort l)
