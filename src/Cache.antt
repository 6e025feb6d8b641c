-- ===== src/Cache.antt =====
-- app/platform/cache.py: `Cache.get_or_set`. What the Redis client answers, and `json.loads` and
-- `json.dumps`, are parameters; entries expire in Redis.
pub mod FailsOpen
mod Tests
use festival_service.Prelude.{String, Bool, Option, none, some, List, [], ◌∷◌, if◌then◌else◌}
use festival_service.Text.{f_string}
use festival_service.Json.{Json}
use festival_service.Errors.{Exception, Result, ok, err}
use festival_service.Exec.{World, Exec}

-- How `client.get(key)` ends.
pub data Read : Type 0 where
  unavailable missing : Read
  cached : String → Read

-- The client: what it reads, and whether a write raises.
pub record Client : Type 0 where
  pub read : String → Read
  pub write_fails : String → String → Bool

-- The writes that Redis took: the key and the text.
abbrev pub Writes : Type 0
Writes = List (String × String)

abbrev pub json_error : Exception
json_error = Exception.value_error

-- `client.set(full_key, json.dumps(value), ...)`, whose `try` also covers `json.dumps`.
abbrev pub write : Client → String → Option String → Writes
write client full_key none = []
write client full_key (some s) = if client.write_fails full_key s then [] else (full_key, s) ∷ []

-- After `compute`: the value is written, whatever becomes of that, unless `compute` raised.
abbrev pub store :
    (Json → Option String) → Client → String → Result Json × World → (Result Json × World) × Writes
store dumps client full_key (ok value, w) = ((ok value, w), write client full_key (dumps value))
store dumps client full_key (err e, w) = ((err e, w), [])

-- `json.loads(cached)`, outside of any `try`.
abbrev pub loaded : Option Json → Result Json
loaded none = err json_error
loaded (some value) = ok value

module _ (loads : String → Option Json) (dumps : Json → Option String) (prefix : String) where
  unfoldable pub get_or_set :
      Option Client → String → Exec Json → World → (Result Json × World) × Writes
  unfolding f_string
  get_or_set none key compute w = (compute w, [])
  get_or_set (some client) key compute w =
      let full_key = f_string (prefix ∷ ":" ∷ key ∷ []) in
      elim (client.read full_key) [
        | unavailable ↦ (compute w, [])
        | cached s ↦ ((loaded (loads s), w), [])
        | missing ↦ store dumps client full_key (compute w)
      ]
