-- ===== src/Money/Allocate/Shares.antt =====
-- The shares of `Money.allocate` of app/platform/money.py, as numbers.
use native.Mathlib.Nat.{mod-lt, div-add-mod', le_of_mul-le-mul_right}
use festival_service.Prelude.{
  ℕ, zero, suc, ◌+◌, ◌-◌, ◌*◌, ◌%◌, ◌≤◌, ◌<◌, ◌≡◌, refl, sym, subst, ap, ◌∙◌, List, [], ◌∷◌, All,
  length, take, arith,
}
use festival_service.Sorting.{sort}
use festival_service.Sorting.Order.{sort-All, length-sort}
use festival_service.Money.Allocate.{
  sum, shares_of, fractions_of, larger_first, add_one, hand_out, split,
}

-- The sum of the fractions.
abbrev left_over : ℕ → ℕ → List ℕ → ℕ
left_over amount total [] = 0
left_over amount total (r ∷ ratios) = amount * r % total + left_over amount total ratios

module _ (amount total : ℕ) where
  shares_whole :
      (ratios : List ℕ)
      → sum (shares_of amount total ratios) * total + left_over amount total ratios
        ≡ amount * sum ratios
  unfolding sum shares_of
  shares_whole [] = grind arith
  shares_whole (r ∷ ratios) =
      let rest = shares_whole ratios in let here = div-add-mod' (amount * r) total in grind arith

  left_over-bounds :
      (ratios : List ℕ) → 0 < total → left_over amount total ratios ≤ length ratios * total
  left_over-bounds [] positive = omega arith
  left_over-bounds (r ∷ ratios) positive =
      let rest = left_over-bounds ratios positive in
      let here = mod-lt (amount * r) positive in grind arith

  length-shares_of : (ratios : List ℕ) → length (shares_of amount total ratios) ≡ length ratios
  unfolding shares_of
  length-shares_of [] = refl
  length-shares_of (r ∷ ratios) = ap suc (length-shares_of ratios)

  length-fractions_of :
      (i : ℕ) (ratios : List ℕ) → length (fractions_of amount total i ratios) ≡ length ratios
  unfolding fractions_of
  length-fractions_of i [] = refl
  length-fractions_of i (r ∷ ratios) = ap suc (length-fractions_of (suc i) ratios)

  fractions_of-All :
      (i n : ℕ) (ratios : List ℕ)
      → i + length ratios ≤ n
      → All (λ (e : ℕ × ℕ). e.0 < n) (fractions_of amount total i ratios)
  unfolding fractions_of
  fractions_of-All i n [] within = tt
  fractions_of-All i n (r ∷ ratios) within =
      (omega (arith, within), fractions_of-All (suc i) n ratios (omega (arith, within)))

take-All :
    (n : ℕ) (bound : ℕ) (l : List (ℕ × ℕ))
    → All (λ (e : ℕ × ℕ). e.0 < bound) l
    → All (λ (e : ℕ × ℕ). e.0 < bound) (take n l)
take-All zero bound l all = tt
take-All (suc n) bound [] all = tt
take-All (suc n) bound (x ∷ l) (here, rest) = (here, take-All n bound l rest)

length-take : (n : ℕ) (l : List (ℕ × ℕ)) → n ≤ length l → length (take n l) ≡ n
length-take zero l enough = refl
length-take (suc n) [] enough = ground arith
length-take (suc n) (x ∷ l) enough = ap suc (length-take n l (ground arith))

sum-add_one :
    (i : ℕ) (l : List ℕ)
    → i < length l
    → (sum (add_one i l) ≡ suc (sum l)) × (length (add_one i l) ≡ length l)
unfolding sum add_one
sum-add_one i [] within = ground arith
sum-add_one zero (s ∷ l) within = (omega arith, refl)
sum-add_one (suc i) (s ∷ l) within =
    let (total, same) = sum-add_one i l (ground arith) in (omega (arith, total), ap suc same)

sum-hand_out :
    (es : List (ℕ × ℕ)) (l : List ℕ)
    → All (λ (e : ℕ × ℕ). e.0 < length l) es
    → (sum (hand_out es l) ≡ sum l + length es) × (length (hand_out es l) ≡ length l)
unfolding hand_out
sum-hand_out [] l all = (omega arith, refl)
sum-hand_out ((i, f) ∷ es) l (here, rest) =
    let (total, same) = sum-add_one i l here in
    let (totals, sames) =
      sum-hand_out es (add_one i l)
        (subst (λ n. All (λ (e : ℕ × ℕ). e.0 < n) es) (sym same) rest) in
    (omega (arith, total, totals), sames ∙ same)

add_mul : (a b t : ℕ) → (a + b) * t ≡ a * t + b * t
add_mul a b t = grind arith

-- The remainder is a number of units that there are positions for.
remainder_fits :
    (amount total : ℕ) (ratios : List ℕ)
    → 0 < total
    → sum ratios ≡ total
    → (sum (shares_of amount total ratios) ≤ amount)
      × (amount - sum (shares_of amount total ratios) ≤ length ratios)
remainder_fits amount total ratios positive whole =
    let q = sum (shares_of amount total ratios) in
    let shared : q * total + left_over amount total ratios ≡ amount * total =
      shares_whole amount total ratios ∙ ap (λ t. amount * t) whole in
    let lower : q ≤ amount = le_of_mul-le-mul_right {k = total} (omega (arith, shared)) positive in
    let bound = left_over-bounds amount total ratios positive in
    let rest : (amount - q) * total ≤ length ratios * total =
      (let sum_of : q + (amount - q) ≡ amount = omega (arith, lower) in
        let apart : q * total + (amount - q) * total ≡ amount * total =
          sym (add_mul q (amount - q) total) ∙ ap (λ n. n * total) sum_of in
        omega (arith, apart, shared, bound)) in
    (lower, le_of_mul-le-mul_right {k = total} rest positive)

-- One share for each ratio, and together the amount.
pub split_lem :
    (amount total : ℕ) (ratios : List ℕ)
    → 0 < total
    → sum ratios ≡ total
    → (sum (split amount total ratios) ≡ amount)
      × (length (split amount total ratios) ≡ length ratios)
unfolding split
split_lem amount total ratios positive whole =
    let shares = shares_of amount total ratios in
    let fractions = sort larger_first (fractions_of amount total 0 ratios) in
    let (lower, fits) = remainder_fits amount total ratios positive whole in
    let count : length fractions ≡ length ratios =
      length-sort larger_first (fractions_of amount total 0 ratios)
      ∙ length-fractions_of amount total 0 ratios in
    let enough : amount - sum shares ≤ length fractions = rw count fits in
    let within = take-All (amount - sum shares) (length shares) fractions (
      sort-All (λ (e : ℕ × ℕ). e.0 < length shares) larger_first
        (fractions_of amount total 0 ratios)
        (fractions_of-All amount total 0 (length shares) ratios
          (omega (arith, length-shares_of amount total ratios)))) in
    let (total_of, same) = sum-hand_out (take (amount - sum shares) fractions) shares within in
    let taken = length-take (amount - sum shares) fractions enough in
    (omega (arith, total_of, taken, lower), same ∙ length-shares_of amount total ratios)
