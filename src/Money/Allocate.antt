-- ===== src/Money/Allocate.antt =====
-- `Money.allocate` and the comparisons of app/platform/money.py.
pub mod Shares
pub mod Sums
use festival_service.Prelude.{
  ℕ, zero, suc, ◌+◌, ◌-◌, ◌*◌, ◌/◌, ◌%◌, Bool, true, false, not, ◌&&◌, ◌||◌, List, [], ◌∷◌, map,
  is_empty, take, ltb, leb, nat_eq,
}
use festival_service.Int.{ℤ, pos, ltb_ℤ, is_negative, abs}
use festival_service.Sorting.{sort}
use festival_service.Errors.{Result, ok, money_error, raise_if, ◌>>=◌, ◌>>◌}
use festival_service.Runtime.{Runtime}
use festival_service.Money.{Money, new, same_currency, signed}

-- `__le__`
unfoldable pub le : Money → Money → Result Bool
unfolding same_currency
le a b = do same_currency a b; ok (not (ltb_ℤ b.minor a.minor))

-- `__gt__`
unfoldable pub gt : Money → Money → Result Bool
unfolding same_currency
gt a b = do same_currency a b; ok (ltb_ℤ b.minor a.minor)

-- `__ge__`
unfoldable pub ge : Money → Money → Result Bool
unfolding same_currency
ge a b = do same_currency a b; ok (not (ltb_ℤ a.minor b.minor))

unfoldable pub any_negative : List ℤ → Bool
any_negative [] = false
any_negative (r ∷ ratios) = is_negative r || any_negative ratios

unfoldable pub sum : List ℕ → ℕ
sum [] = 0
sum (n ∷ l) = n + sum l

-- `[amount * r // total_ratio for r in ratios]`
unfoldable pub shares_of : ℕ → ℕ → List ℕ → List ℕ
shares_of amount total [] = []
shares_of amount total (r ∷ ratios) = amount * r / total ∷ shares_of amount total ratios

-- Each position, from one on, with `amount * ratios[i] % total_ratio`.
unfoldable pub fractions_of : ℕ → ℕ → ℕ → List ℕ → List (ℕ × ℕ)
fractions_of amount total i [] = []
fractions_of amount total i (r ∷ ratios) =
    (i, amount * r % total) ∷ fractions_of amount total (suc i) ratios

-- The order of the keys `(-fraction, position)`.
unfoldable pub larger_first : ℕ × ℕ → ℕ × ℕ → Bool
larger_first (i, f) (j, g) = ltb g f || (nat_eq f g && leb i j)

-- `shares[i] += 1`
unfoldable pub add_one : ℕ → List ℕ → List ℕ
add_one i [] = []
add_one zero (s ∷ shares) = suc s ∷ shares
add_one (suc i) (s ∷ shares) = s ∷ add_one i shares

-- `for i in fractions: shares[i] += 1`
unfoldable pub hand_out : List (ℕ × ℕ) → List ℕ → List ℕ
unfolding add_one
hand_out [] shares = shares
hand_out ((i, f) ∷ fractions) shares = hand_out fractions (add_one i shares)

-- `[Money(sign * s, self.currency) for s in shares]`
unfoldable pub amounts : Runtime → Money → List ℕ → Result (List Money)
unfolding new
amounts rt m [] = ok []
amounts rt m (s ∷ shares) =
    let rest = amounts rt m shares in
    new rt (signed m.minor s) m.currency >>= λ x. rest >>= λ xs. ok (x ∷ xs)

-- The loop and what comes before it, for ratios whose sum is `total`.
unfoldable pub split : ℕ → ℕ → List ℕ → List ℕ
unfolding shares_of fractions_of larger_first sort hand_out sum
split amount total ratios =
    let shares = shares_of amount total ratios in
    let fractions = sort larger_first (fractions_of amount total 0 ratios) in
    hand_out (take (amount - sum shares) fractions) shares

-- `allocate`; the remainder that is handed out is never negative.
unfoldable pub allocate : Runtime → Money → List ℤ → Result (List Money)
unfolding any_negative sum split amounts
allocate rt m ratios = do
  raise_if (is_empty ratios) money_error
  raise_if (any_negative ratios) money_error
  let total = sum (map abs ratios)
  raise_if (nat_eq total 0) money_error
  amounts rt m (split (abs m.minor) total (map abs ratios))
