-- ===== src/Json.antt =====
-- The values that `json.loads` returns and that event payloads are made of, with Python's truth
-- value, `str()` and `.get()` of them.
use festival_service.Prelude.{
  String, Bool, true, false, not, ◌&&◌, Option, none, some, List, [], ◌∷◌, ◌==◌, nat_eq,
  if◌then◌else◌,
}
use festival_service.Int.{ℤ, abs}
use festival_service.Text.{is_empty}
use festival_service.Text.Number.{str_of_int}

-- A float is held as the text that `repr` gives of it.
mutual
  pub data Json : Type 0 where
    null : Json
    bool : Bool → Json
    int : ℤ → Json
    float : String → Json
    text : String → Json
    arr : Items → Json
    obj : Fields → Json

  pub data Items : Type 0 where
    nil : Items
    cons : Json → Items → Items

  pub data Fields : Type 0 where
    end : Fields
    field : String → Json → Fields → Fields

-- `payload.get(k)`: `json.loads` keeps the last of several entries with one key, so a payload has
-- one entry for each key.
unfoldable pub get : String → Fields → Option Json
get k end = none
get k (field j v fs) = if j == k then some v else get k fs

-- `bool(value)`; a missing value is `None`.
unfoldable pub is_truthy : Option Json → Bool
is_truthy none = false
is_truthy (some null) = false
is_truthy (some (bool b)) = b
is_truthy (some (int n)) = not (nat_eq (abs n) 0)
is_truthy (some (float s)) = not (s == "0.0") && not (s == "-0.0")
is_truthy (some (text s)) = not (is_empty s)
is_truthy (some (arr nil)) = false
is_truthy (some (arr (cons x xs))) = true
is_truthy (some (obj end)) = false
is_truthy (some (obj (field k v fs))) = true

-- `str(value)`; `repr` is Python's text of a list or a dict.
unfoldable pub str : (Json → String) → Json → String
unfolding str_of_int
str repr null = "None"
str repr (bool true) = "True"
str repr (bool false) = "False"
str repr (int n) = str_of_int n
str repr (float s) = s
str repr (text s) = s
str repr (arr xs) = repr (arr xs)
str repr (obj fs) = repr (obj fs)

-- `str(payload.get(k) or "")`
unfoldable pub get_text : (Json → String) → String → Fields → String
unfolding get is_truthy str
get_text repr k fs = elim (get k fs) [
  | none ↦ ""
  | some v ↦ if is_truthy (some v) then str repr v else ""
]

unfoldable pub texts : List String → Items
texts [] = nil
texts (s ∷ l) = cons (text s) (texts l)
