-- ===== src/Money.antt =====
-- app/platform/money.py: amounts in minor units.
pub mod Arithmetic
pub mod Codes
pub mod Allocate
mod Tests
use festival_service.Prelude.{
  ℕ, ◌+◌, ◌*◌, ◌/◌, String, Bool, true, not, ◌&&◌, ◌||◌, Option, none, some, ◌==◌, nat_eq,
  if◌then◌else◌,
}
use festival_service.Int.{ℤ, pos, negsuc, ◌+ℤ◌, ◌-ℤ◌, ltb_ℤ, is_negative, abs, neg_ℕ}
use festival_service.Text
use festival_service.Text.Number.{str_of_int, int_of_str}
use festival_service.Json.{Json, int, text, obj, Fields, end, field, get, is_truthy, str}
use festival_service.Errors.{Result, ok, err, money_error, attribute_error, raise_if, ◌>>=◌, ◌>>◌}
use festival_service.Runtime.{Runtime}

pub record Money : Type 0 where
  pub minor : ℤ
  pub currency : String

-- `str.isalpha`: at least one character, and letters only.
unfoldable pub all_alpha : Runtime → String → Bool
all_alpha rt String.[] = true
all_alpha rt (String.◌∷◌ c s) = rt.is_alpha c && all_alpha rt s

-- `Money(minor, currency)`, with the checks of `__post_init__`.
unfoldable pub new : Runtime → ℤ → String → Result Money
unfolding all_alpha
new rt minor currency = do
  let code = rt.upper (Text.strip currency)
  raise_if (not (nat_eq (Text.length code) 3) || not (all_alpha rt code)) money_error
  ok (record { minor = minor; currency = code })

unfoldable pub same_currency : Money → Money → Result (Unit {0})
same_currency a b = raise_if (not (a.currency == b.currency)) money_error

-- `__add__`
unfoldable pub add : Runtime → Money → Money → Result Money
unfolding same_currency
add rt a b = do same_currency a b; new rt (a.minor +ℤ b.minor) a.currency

-- `__sub__`
unfoldable pub sub : Runtime → Money → Money → Result Money
unfolding same_currency
sub rt a b = do same_currency a b; new rt (a.minor -ℤ b.minor) a.currency

-- `__lt__`
unfoldable pub lt : Money → Money → Result Bool
unfolding same_currency
lt a b = do same_currency a b; ok (ltb_ℤ a.minor b.minor)

-- `sign * n`, the sign of an amount
abbrev pub signed : ℤ → ℕ → ℤ
signed (pos _) n = pos n
signed (negsuc _) n = neg_ℕ n

-- `basis_points`
unfoldable pub basis_points : Runtime → Money → ℤ → Result Money
basis_points rt m bps = do
  raise_if (is_negative bps) money_error
  new rt (signed m.minor ((abs m.minor * abs bps + 5000) / 10000)) m.currency

-- `to_wire`
unfoldable pub to_wire : Money → Fields
to_wire m =
    field "amount_minor" (text (str_of_int m.minor)) (field "currency" (text m.currency) end)

-- `raw.get("amount_minor", raw.get("amount", 0))`
abbrev amount_of : Fields → Json
amount_of fs = elim (get "amount_minor" fs) [
  | some v ↦ v
  | none ↦ elim (get "amount" fs) [ some v ↦ v | none ↦ int (pos 0) ]
]

-- `raw.get("currency") or ""`; a true value that is no text has no `strip`.
currency_of : Option Json → Result String
currency_of (some (text s)) = ok s
currency_of v = if is_truthy v then err attribute_error else ok ""

or_money_error : Option ℤ → Result ℤ
or_money_error none = err money_error
or_money_error (some n) = ok n

-- `from_wire`, of a value that JSON can hold.
unfoldable pub from_wire : Runtime → Json → Result Money
unfolding currency_of or_money_error
from_wire rt (obj fs) = do
  minor ← or_money_error (int_of_str (str rt.repr (amount_of fs)))
  currency ← currency_of (get "currency" fs)
  new rt minor currency
from_wire rt _ = err money_error
