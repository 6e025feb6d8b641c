-- ===== src/Sorting/Order.antt =====
-- What a sort leaves: the same elements.
use mathlib.Core.List.{Permᴰ}
use mathlib.Core.List.Permᴰ
use festival_service.Prelude.{
  Bool, true, false, ◌⊎◌, suc, length, ap, ◌∙◌, arith, ◌≡◌, refl, inl, inr, List, [], ◌∷◌, All,
  Bool-cases,
}
use festival_service.Sorting.{insert, sort}

module _ {ℓ} {A : Type ℓ} (before : A → A → Bool) where
  insert-Permᴰ : (a : A) (l : List A) → Permᴰ (a ∷ l) (insert before a l)
  unfolding insert
  insert-Permᴰ a [] = Permᴰ.refl (a ∷ [])
  insert-Permᴰ a (b ∷ l) = elim (Bool-cases (before a b)) [
    | inl first ↦ rw first (Permᴰ.refl (a ∷ b ∷ l))
    | inr later ↦ rw later (Permᴰ.trans (Permᴰ.swap refl refl) (Permᴰ.cons refl (insert-Permᴰ a l)))
  ]

  pub sort-Permᴰ : (l : List A) → Permᴰ l (sort before l)
  unfolding sort
  sort-Permᴰ [] = Permᴰ.nil
  sort-Permᴰ (a ∷ l) = Permᴰ.trans (Permᴰ.cons refl (sort-Permᴰ l)) (insert-Permᴰ a (sort before l))

module _ {ℓ κ} {A : Type ℓ} (Holds : A → Type κ) (before : A → A → Bool) where
  insert-All : (a : A) (l : List A) → Holds a → All Holds l → All Holds (insert before a l)
  unfolding insert
  insert-All a [] h hs = (h, tt)
  insert-All a (b ∷ l) h hs = elim (Bool-cases (before a b)) [
    | inl first ↦ rw first (h, hs)
    | inr later ↦ rw later (hs.0, insert-All a l h hs.1)
  ]

  pub sort-All : (l : List A) → All Holds l → All Holds (sort before l)
  unfolding sort
  sort-All [] h = tt
  sort-All (a ∷ l) h = insert-All a (sort before l) h.0 (sort-All l h.1)

module _ {ℓ} {A : Type ℓ} (before : A → A → Bool) where
  length-insert : (a : A) (l : List A) → length (insert before a l) ≡ suc (length l)
  unfolding insert
  length-insert a [] = refl
  length-insert a (b ∷ l) = let rest = length-insert a l in ground arith

  pub length-sort : (l : List A) → length (sort before l) ≡ length l
  unfolding sort
  length-sort [] = refl
  length-sort (a ∷ l) = length-insert a (sort before l) ∙ ap suc (length-sort l)

pub All-imp {ℓ κ μ} :
    {A : Type ℓ} (P : A → Type κ) (Q : A → Type μ) (l : List A)
    → ((a : A) → P a → Q a)
    → All P l
    → All Q l
All-imp P Q [] f h = tt
All-imp P Q (a ∷ l) f h = (f a h.0, All-imp P Q l f h.1)

-- Each element is related to all that follow it.
unfoldable pub Ascending {ℓ κ} : {A : Type ℓ} → (A → A → Type κ) → List A → Type κ
Ascending R [] = Unit
Ascending R (a ∷ l) = All (R a) l × Ascending R l

module _ {ℓ} {A : Type ℓ} (before : A → A → Bool)
    (total : (a b : A) → (before a b ≡ true) ⊎ (before b a ≡ true))
    (trans : (a b c : A) → before a b ≡ true → before b c ≡ true → before a c ≡ true) where
  abbrev Before : A → A → Type 0
  Before a b = before a b ≡ true

  other_way : (a b : A) → before a b ≡ false → before b a ≡ true
  other_way a b later = elim (total a b) [ inl first ↦ absurd (ground arith) | inr back ↦ back ]

  insert-Ascending :
      (a : A) (l : List A) → Ascending Before l → Ascending Before (insert before a l)
  unfolding insert Ascending
  insert-Ascending a [] h = (tt, tt)
  insert-Ascending a (b ∷ l) (h, hs) = elim (Bool-cases (before a b)) [
    | inl first ↦
        rw first ((first, All-imp (Before b) (Before a) l (λ c. trans a b c first) h), (h, hs))
    | inr later ↦
        rw later (insert-All (Before b) before a l (other_way a b later) h, insert-Ascending a l hs)
  ]

  pub sort-Ascending : (l : List A) → Ascending Before (sort before l)
  unfolding sort Ascending
  sort-Ascending [] = tt
  sort-Ascending (a ∷ l) = insert-Ascending a (sort before l) (sort-Ascending l)

pub Ascending-imp {ℓ κ μ} :
    {A : Type ℓ} (P : A → A → Type κ) (Q : A → A → Type μ) (l : List A)
    → ((a b : A) → P a b → Q a b)
    → Ascending P l
    → Ascending Q l
unfolding Ascending
Ascending-imp P Q [] f h = tt
Ascending-imp P Q (a ∷ l) f h = (All-imp (P a) (Q a) l (f a) h.0, Ascending-imp P Q l f h.1)
