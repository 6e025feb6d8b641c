-- ===== src/Runtime.antt =====
-- What the program takes from outside its sources: the Unicode tables behind `str.upper` and
-- `str.isalpha`, Python's text of a list or a dict, the calendar behind `datetime.isoformat` and
-- `datetime.fromisoformat` (`none` is its `ValueError`), and `int()` of a float.
use festival_service.Prelude.{Char, String, Bool, Option}
use festival_service.Int.{ℤ}
use festival_service.Datetime.{Datetime}
use festival_service.Json.{Json}

pub record Runtime : Type 0 where
  pub upper : String → String
  pub is_alpha : Char → Bool
  pub repr : Json → String
  pub isoformat : Datetime → String
  pub fromisoformat : String → Option Datetime
  pub int_of_float : String → Option ℤ
