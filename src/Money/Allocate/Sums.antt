-- ===== src/Money/Allocate/Sums.antt =====
-- The amounts that `Money.allocate` of app/platform/money.py gives.
use festival_service.Prelude.{
  ℕ, suc, ◌+◌, ◌<◌, Bool, true, false, ◌||◌, ◌≡◌, refl, sym, ap, ◌∙◌, ◌⊎◌, inl, inr, List, [], ◌∷◌,
  map, All, length, is_empty, nat_eq, Bool-cases, arith,
}
use festival_service.Int.{ℤ, pos, negsuc, ◌+ℤ◌, abs}
use festival_service.Errors.{ok, err, money_error}
use festival_service.Runtime.{Runtime}
use festival_service.Money.{Money, signed}
use festival_service.Money.Arithmetic.{IsMoney, new_amount}
use festival_service.Money.Allocate.{sum, any_negative, amounts, split, allocate}
use festival_service.Money.Allocate.Shares.{split_lem}

-- The sum of the amounts.
abbrev pub total_of : List Money → ℤ
total_of [] = pos 0
total_of (x ∷ xs) = x.minor +ℤ total_of xs

signed_add : (a : ℤ) (s t : ℕ) → signed a s +ℤ signed a t ≡ signed a (s + t)
unfolding ◌+ℤ◌
signed_add (pos n) s t = ground arith
signed_add (negsuc n) s t = ground arith

signed-abs : (a : ℤ) → signed a (abs a) ≡ a
signed-abs (pos n) = refl
signed-abs (negsuc n) = refl

signed_zero : (a : ℤ) → signed a 0 ≡ pos 0
signed_zero (pos n) = refl
signed_zero (negsuc n) = refl

-- The amounts that a list of shares stands for.
pub record Shared (m : Money) (shares : List ℕ) (xs : List Money) : Type 0 where
  pub sums : total_of xs ≡ signed m.minor (sum shares)
  pub count : length xs ≡ length shares
  pub same : All (λ (x : Money). x.currency ≡ m.currency) xs

amounts-Shared :
    (rt : Runtime) (m : Money) (shares : List ℕ)
    → IsMoney rt m
    → (xs : List Money) × (amounts rt m shares ≡ ok xs) × Shared m shares xs
unfolding amounts sum
amounts-Shared rt m [] valid =
    ([], refl, record { sums = sym (signed_zero m.minor); count = refl; same = tt })
amounts-Shared rt m (s ∷ shares) valid =
    let (xs, made, rest) = amounts-Shared rt m shares valid in
    let x : Money = record { minor = signed m.minor s; currency = m.currency } in
    let one = new_amount rt m (signed m.minor s) valid in
    (
      x ∷ xs,
      rw (amounts, one, made) refl,
      record {
        sums = ap (λ t. signed m.minor s +ℤ t) rest.sums ∙ signed_add m.minor s (sum shares);
        count = ap suc rest.count;
        same = (refl, rest.same);
      },
    )

length-map-abs : (ratios : List ℤ) → length (map abs ratios) ≡ length ratios
length-map-abs [] = refl
length-map-abs (r ∷ ratios) = ap suc (length-map-abs ratios)

-- The ratios that are refused: none, a negative one, or zeros only.
abbrev pub refused : List ℤ → Bool
refused ratios = is_empty ratios || any_negative ratios || nat_eq (sum (map abs ratios)) 0

-- An amount is split into one share for each ratio, in its own currency, which add up to exactly
-- the amount, whatever its sign; without ratios, with a negative one, or with zeros only, it raises
-- a MoneyError.
pub allocate_lem :
    (rt : Runtime) (m : Money) (ratios : List ℤ)
    → IsMoney rt m
    → ((refused ratios ≡ true) × (allocate rt m ratios ≡ err money_error))
      ⊎ ((refused ratios ≡ false)
          × (xs : List Money) × (allocate rt m ratios ≡ ok xs)
          × (total_of xs ≡ m.minor)
          × (length xs ≡ length ratios)
          × All (λ (x : Money). x.currency ≡ m.currency) xs)
unfolding allocate
allocate_lem rt m ratios valid = elim (Bool-cases (is_empty ratios)) [
  | inl none_given ↦ inl (rw none_given refl, rw (allocate, none_given) refl)
  | inr given ↦ elim (Bool-cases (any_negative ratios)) [
    | inl below ↦ inl (rw (given, below) refl, rw (allocate, given, below) refl)
    | inr not_below ↦ elim (Bool-cases (nat_eq (sum (map abs ratios)) 0)) [
      | inl zeros ↦
          inl (rw (given, not_below, zeros) refl, rw (allocate, given, not_below, zeros) refl)
      | inr some_part ↦
          let total = sum (map abs ratios) in
          let positive : 0 < total = ground arith in
          let (whole, count) = split_lem (abs m.minor) total (map abs ratios) positive refl in
          let (xs, made, shared) =
            amounts-Shared rt m (split (abs m.minor) total (map abs ratios)) valid in
          inr (
            rw (given, not_below, some_part) refl,
            xs,
            rw (allocate, given, not_below, some_part) made,
            shared.sums ∙ ap (λ n. signed m.minor n) whole ∙ signed-abs m.minor,
            shared.count ∙ count ∙ length-map-abs ratios,
            shared.same,
          )
    ]
  ]
]
