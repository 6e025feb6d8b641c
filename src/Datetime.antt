-- ===== src/Datetime.antt =====
-- Python's `datetime`, as far as the program compares values: an instant in microseconds, with or
-- without a time zone. Comparing one with a zone and one without raises `TypeError`.
use festival_service.Prelude.{ℕ, Bool, leb}
use festival_service.Errors.{Result, ok, err, type_error}

pub data Datetime : Type 0 where
  aware : ℕ → Datetime
  naive : ℕ → Datetime

abbrev pub instant : Datetime → ℕ
instant (aware t) = t
instant (naive t) = t

-- `a <= b`
unfoldable pub compare_le : Datetime → Datetime → Result Bool
compare_le (aware a) (aware b) = ok (leb a b)
compare_le (naive a) (naive b) = ok (leb a b)
compare_le (aware a) (naive b) = err type_error
compare_le (naive a) (aware b) = err type_error
