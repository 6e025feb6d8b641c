-- ===== src/Money/Arithmetic.antt =====
-- Sums, differences and rates of amounts.
use festival_service.Prelude.{ℕ, ◌+◌, ◌*◌, ◌/◌, ◌≤◌, ◌<◌, String, ◌≡◌, ap, ◌∙◌, arith, eq_refl}
use festival_service.Int.{ℤ, pos, ◌+ℤ◌, ◌-ℤ◌, abs, eq_of_parts, +ℤ_parts, -ℤ_parts}
use festival_service.Errors.{ok, ◌>>=◌}
use festival_service.Runtime.{Runtime}
use festival_service.Money.{Money, new, same_currency, add, sub, signed, basis_points}

-- An amount that `Money(...)` builds from its own fields: its currency is a code already.
abbrev pub IsMoney : Runtime → Money → Type 0
IsMoney rt m = new rt m.minor m.currency ≡ ok m

-- Another amount in the same currency.
pub new_amount :
    (rt : Runtime) (m : Money) (n : ℤ)
    → IsMoney rt m
    → new rt n m.currency ≡ ok (record { minor = n; currency = m.currency })
unfolding new
new_amount rt m n h = ground arith

+ℤ-ℤ_cancel : (a b : ℤ) → (a +ℤ b) -ℤ b ≡ a
+ℤ-ℤ_cancel a b = ground (arith, eq_of_parts ((a +ℤ b) -ℤ b) a, +ℤ_parts a b, -ℤ_parts (a +ℤ b) b)

same_currency_refl : (a b : Money) → a.currency ≡ b.currency → same_currency a b ≡ ok tt
unfolding same_currency
same_currency_refl a b h = ground (arith, eq_refl a.currency)

-- Subtracting what was added gives the amount back, where both amounts have one currency.
sub-add :
    (rt : Runtime) (a b : Money)
    → IsMoney rt a
    → a.currency ≡ b.currency
    → (add rt a b >>= λ s. sub rt s b) ≡ ok a
unfolding add sub
sub-add rt a b v same =
    let total : Money = record { minor = a.minor +ℤ b.minor; currency = a.currency } in
    rw
      (
        same_currency_refl a b same,
        new_amount rt a (a.minor +ℤ b.minor) v,
        same_currency_refl total b same,
        +ℤ-ℤ_cancel a.minor b.minor,
      )
      v

new-minor : (rt : Runtime) (n : ℤ) (code : String) {r : Money} → new rt n code ≡ ok r → r.minor ≡ n
unfolding new
new-minor rt n code h = ground arith

abs-signed : (a : ℤ) (n : ℕ) → abs (signed a n) ≡ n
abs-signed a n = ground arith

div_bounds : (x : ℕ) → (x / 10000 * 10000 ≤ x) × (x < x / 10000 * 10000 + 10000)
div_bounds x = (omega arith, omega arith)

-- A rate of `bps` basis points, not negative, gives an amount whose distance to the exact share is
-- at most half a unit, with halves rounded away from zero: ten thousand times it is at most the
-- product of amount and rate plus 5000, and more than the product minus 5000. The sign is that of
-- the amount.
pub basis_points_rounds :
    (rt : Runtime) (m r : Money) (bps : ℕ)
    → basis_points rt m (pos bps) ≡ ok r
    → (abs r.minor * 10000 ≤ abs m.minor * bps + 5000)
      × (abs m.minor * bps < abs r.minor * 10000 + 5000)
      × (r.minor ≡ signed m.minor (abs r.minor))
unfolding basis_points
basis_points_rounds rt m r bps h =
    let share = (abs m.minor * bps + 5000) / 10000 in
    let exact : r.minor ≡ signed m.minor share = new-minor rt (signed m.minor share) m.currency h in
    let size : abs r.minor ≡ share = ap abs exact ∙ abs-signed m.minor share in
    let (low, high) = div_bounds (abs m.minor * bps + 5000) in
    (rw size low, rw size (omega (arith, high)), rw size exact)
