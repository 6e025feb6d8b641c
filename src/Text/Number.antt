-- ===== src/Text/Number.antt =====
-- `str(n)` and `int(s)` of Python, for decimal numerals in ASCII digits. `int` accepts spaces
-- around the numeral, a sign, and single underscores between digits; `none` is its `ValueError`.
use Prim.Native.String
use festival_service.Prelude.{
  ℕ, zero, suc, ◌+◌, ◌-◌, ◌*◌, ◌/◌, ◌%◌, code, String, Bool, true, false, ◌&&◌, Option, none, some,
  ltb, leb, nat_eq, if◌then◌else◌,
}
use festival_service.Int.{ℤ, pos, negsuc, neg_ℕ}
use festival_service.Text.{strip}

-- One digit in front of a text.
unfoldable pub push_digit : ℕ → String → String
push_digit d s =
    if nat_eq d 0
    then String.◌++◌ "0" s
    else if nat_eq d 1
    then String.◌++◌ "1" s
    else if nat_eq d 2
    then String.◌++◌ "2" s
    else if nat_eq d 3
    then String.◌++◌ "3" s
    else if nat_eq d 4
    then String.◌++◌ "4" s
    else if nat_eq d 5
    then String.◌++◌ "5" s
    else if nat_eq d 6
    then String.◌++◌ "6" s
    else if nat_eq d 7
    then String.◌++◌ "7" s
    else if nat_eq d 8
    then String.◌++◌ "8" s
    else String.◌++◌ "9" s

-- The digits of `n` in front of `acc`; a tenth is below the fuel whenever the number is.
unfoldable pub digits : ℕ → ℕ → String → String
unfolding push_digit
digits zero n acc = acc
digits (suc f) n acc =
    let rest = digits f (n / 10) (push_digit (n % 10) acc) in
    if ltb n 10 then push_digit n acc else rest

unfoldable pub str_of_int : ℤ → String
unfolding digits
str_of_int (pos n) = digits (suc n) n ""
str_of_int (negsuc n) = String.◌++◌ "-" (digits (suc (suc n)) (suc n) "")

-- The digits after what has been read: its value, and whether the last character was a digit.
unfoldable pub read_digits : ℕ → Bool → String → Option ℕ
read_digits acc after_digit String.[] = if after_digit then some acc else none
read_digits acc after_digit (String.◌∷◌ c s) =
    let n = code c in
    let more = read_digits (acc * 10 + (n - 48)) true s in
    let gap = read_digits acc false s in
    if leb 48 n && leb n 57 then more else if nat_eq n 95 && after_digit then gap else none

unfoldable pub read_signed : String → Option ℤ
unfolding read_digits
read_signed String.[] = none
read_signed (String.◌∷◌ c s) =
    if nat_eq (code c) 45
    then elim (read_digits 0 false s) [ none ↦ none | some n ↦ some (neg_ℕ n) ]
    else if nat_eq (code c) 43
    then elim (read_digits 0 false s) [ none ↦ none | some n ↦ some (pos n) ]
    else elim (read_digits 0 false (String.◌∷◌ c s)) [ none ↦ none | some n ↦ some (pos n) ]

unfoldable pub int_of_str : String → Option ℤ
unfolding read_signed strip
int_of_str s = read_signed (strip s)
