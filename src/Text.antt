-- ===== src/Text.antt =====
-- What the program uses of Python's `str`: `strip`, `len`, `s[:n]` and f-strings.
pub mod Number
pub mod Order
use Prim.Native.String
use festival_service.Prelude.{
  ℕ, zero, suc, Char, code, String, Bool, true, false, ◌&&◌, ◌||◌, ◌==◌, Option, none, some, List,
  [], ◌∷◌, leb, nat_eq, if◌then◌else◌,
}

-- `len`: the number of code points.
unfoldable pub length : String → ℕ
length String.[] = 0
length (String.◌∷◌ c s) = suc (length s)

-- `s[:n]`
unfoldable pub take : ℕ → String → String
take zero s = ""
take (suc n) String.[] = ""
take (suc n) (String.◌∷◌ c s) = String.◌∷◌ c (take n s)

abbrev between : ℕ → ℕ → ℕ → Bool
between lo hi n = leb lo n && leb n hi

-- The characters that `str.isspace` accepts, by code point.
unfoldable pub is_space : Char → Bool
is_space c =
    let n = code c in
    between 0x9 0xd n
    || between 0x1c 0x20 n
    || nat_eq n 0x85
    || nat_eq n 0xa0
    || nat_eq n 0x1680
    || between 0x2000 0x200a n
    || between 0x2028 0x2029 n
    || nat_eq n 0x202f
    || nat_eq n 0x205f
    || nat_eq n 0x3000

unfoldable pub is_empty : String → Bool
is_empty String.[] = true
is_empty (String.◌∷◌ c s) = false

unfoldable pub lstrip : String → String
lstrip String.[] = ""
lstrip (String.◌∷◌ c s) = let rest = lstrip s in if is_space c then rest else String.◌∷◌ c s

unfoldable pub rstrip : String → String
unfolding is_empty
rstrip String.[] = ""
rstrip (String.◌∷◌ c s) =
    let rest = rstrip s in if is_space c && is_empty rest then "" else String.◌∷◌ c rest

unfoldable pub strip : String → String
unfolding lstrip rstrip is_space
strip s = rstrip (lstrip s)

-- An f-string, as its pieces.
unfoldable pub f_string : List String → String
f_string [] = ""
f_string (s ∷ parts) = String.◌++◌ s (f_string parts)

-- What follows a prefix.
unfoldable pub drop_prefix : String → String → Option String
drop_prefix String.[] s = some s
drop_prefix (String.◌∷◌ c p) String.[] = none
drop_prefix (String.◌∷◌ c p) (String.◌∷◌ d s) =
    let rest = drop_prefix p s in if nat_eq (code c) (code d) then rest else none

-- `s.replace(old, new)` for an `old` that is not empty; the fuel is one for each character.
unfoldable pub replace_from : ℕ → String → String → String → String
unfolding drop_prefix
replace_from zero old new s = s
replace_from (suc f) old new String.[] = ""
replace_from (suc f) old new (String.◌∷◌ c s) =
    let next = String.◌∷◌ c (replace_from f old new s) in
    elim (drop_prefix old (String.◌∷◌ c s)) [
      | none ↦ next
      | some rest ↦ String.◌++◌ new (replace_from f old new rest)
    ]

unfoldable pub replace : String → String → String → String
unfolding replace_from length
replace old new s = replace_from (length s) old new s

-- `separator.join(l)`
unfoldable pub join : String → List String → String
unfolding f_string
join separator [] = ""
join separator (s ∷ []) = s
join separator (s ∷ l) = f_string (s ∷ separator ∷ join separator l ∷ [])

-- `text.startswith(prefix)`
unfoldable pub starts_with : String → String → Bool
unfolding drop_prefix
starts_with prefix s = elim (drop_prefix prefix s) [ none ↦ false | some rest ↦ true ]

-- `text.endswith(suffix)`
unfoldable pub ends_with : String → String → Bool
unfolding is_empty
ends_with suffix String.[] = is_empty suffix
ends_with suffix (String.◌∷◌ c s) = suffix == String.◌∷◌ c s || ends_with suffix s

-- `part in text`
unfoldable pub occurs : String → String → Bool
unfolding starts_with
occurs part String.[] = starts_with part ""
occurs part (String.◌∷◌ c s) = starts_with part (String.◌∷◌ c s) || occurs part s

-- `text.split(separator)` at a character, given by its code point; the text that comes before is
-- the item that has been read so far.
unfoldable pub split_from : ℕ → String → String → List String
split_from separator item String.[] = item ∷ []
split_from separator item (String.◌∷◌ c s) =
    if nat_eq (code c) separator
    then item ∷ split_from separator "" s
    else split_from separator (String.◌++◌ item (String.◌∷◌ c "")) s

-- `text.replace(old, new, 1)`, for an `old` that is not empty.
unfoldable pub replace_once : String → String → String → String
unfolding drop_prefix
replace_once old new String.[] = ""
replace_once old new (String.◌∷◌ c s) = elim (drop_prefix old (String.◌∷◌ c s)) [
  | none ↦ String.◌∷◌ c (replace_once old new s)
  | some rest ↦ String.◌++◌ new rest
]
