-- ===== src/Money/Tests.antt =====
-- Amounts at concrete inputs.
use festival_service.Prelude.{
  ◌⊎◌, List, [], ◌∷◌, All, length, false, ◌≡◌, ◌≤◌, ◌<◌, ◌+◌, ◌*◌, refl, true,
}
use festival_service.Int.{pos, negsuc, abs}
use festival_service.Errors.{ok, err, money_error}
use festival_service.Samples.{rt}
use festival_service.Money.{Money, add, sub, signed, basis_points}
use festival_service.Money.Allocate.{allocate}
use festival_service.Money.Allocate.Sums.{refused, total_of, allocate_lem}
use festival_service.Money.Arithmetic.{IsMoney, basis_points_rounds}

abbrev refund : Money
refund = record { minor = negsuc 1998; currency = "EUR" }

-- 2.5 % of -19.99.
rate : basis_points rt refund (pos 250) ≡ ok (record { minor = negsuc 49; currency = "EUR" })
unfolding basis_points festival_service.Money.new festival_service.Text.length
    festival_service.Text.strip
rate = refl

basis_points_rounds_example :
    (50 * 10000 ≤ abs refund.minor * 250 + 5000)
    × (abs refund.minor * 250 < 50 * 10000 + 5000)
    × (negsuc 49 ≡ signed refund.minor 50)
basis_points_rounds_example =
    basis_points_rounds rt refund (record { minor = negsuc 49; currency = "EUR" }) 250 rate

-- The revenue of a refund of one unit, and of -19.99, by 70 to 30.
one_unit :
    allocate rt (record { minor = negsuc 0; currency = "EUR" }) (pos 70 ∷ pos 30 ∷ [])
    ≡ ok (
        record { minor = negsuc 0; currency = "EUR" }
        ∷ record { minor = pos 0; currency = "EUR" }
        ∷ [])
unfolding allocate festival_service.Text.length festival_service.Text.strip
one_unit = refl

refund-IsMoney : IsMoney rt refund
unfolding festival_service.Money.new festival_service.Text.length festival_service.Text.strip
refund-IsMoney = refl

allocate_lem_example :
    ((refused (pos 70 ∷ pos 30 ∷ []) ≡ true)
      × (allocate rt refund (pos 70 ∷ pos 30 ∷ []) ≡ err money_error))
    ⊎ ((refused (pos 70 ∷ pos 30 ∷ []) ≡ false)
        × (xs : List Money) × (allocate rt refund (pos 70 ∷ pos 30 ∷ []) ≡ ok xs)
        × (total_of xs ≡ refund.minor)
        × (length xs ≡ 2)
        × All (λ (x : Money). x.currency ≡ "EUR") xs)
allocate_lem_example = allocate_lem rt refund (pos 70 ∷ pos 30 ∷ []) refund-IsMoney
