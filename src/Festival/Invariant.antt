-- ===== src/Festival/Invariant.antt =====
-- What holds of every festival: the window, the lengths, the game list and the time stamps.
use festival_service.Prelude.{
  ℕ, zero, suc, ◌≤◌, String, ◌≡◌, refl, Bool, true, false, Option, none, some, List, [], ◌∷◌, All,
  arith, eq_iff,
}
use festival_service.Text
use festival_service.Datetime.{Datetime, compare_le}
use festival_service.Dict.{Dict, set, del, Distinct}
use festival_service.Dict.Laws.{set-Distinct, del-Distinct}
use festival_service.Errors.{Result, ok, err}
use festival_service.Festival.{
  Festival, FestivalGame, FestivalState, draft, active, ended, cancelled, name_max, description_max,
  create,
}
use festival_service.Festival.Commands.{
  Command, reschedule, add_game, remove_game, start, end_festival, cancel, apply, after, run,
}

abbrev pub is_some {ℓ} : {A : Type ℓ} → Option A → Bool
is_some none = false
is_some (some a) = true

-- Which of `started_at` and `ended_at` are set, by the state.
abbrev pub Stamped : FestivalState → Option Datetime → Option Datetime → Type 0
Stamped draft started ended_at = (is_some started ≡ false) × (is_some ended_at ≡ false)
Stamped active started ended_at = (is_some started ≡ true) × (is_some ended_at ≡ false)
Stamped ended started ended_at = (is_some started ≡ true) × (is_some ended_at ≡ true)
Stamped cancelled started ended_at = is_some ended_at ≡ true

-- Every game stands under its own id.
abbrev pub Keyed : Dict FestivalGame → Type 0
Keyed = All (λ (e : String × FestivalGame). e.0 ≡ e.1.game_id)

pub record IsValid (f : Festival) : Type 0 where
  -- `ends_at` and `starts_at` can be compared, and the window is not empty.
  pub window : compare_le f.ends_at f.starts_at ≡ ok false
  pub named : Text.is_empty f.name ≡ false
  pub name_fits : Text.length f.name ≤ name_max
  pub description_fits : Text.length f.description ≤ description_max
  pub distinct : Distinct f.games
  pub keyed : Keyed f.games
  pub stamped : Stamped f.state f.started_at f.ended_at

length-take-le : (n : ℕ) (s : String) → Text.length (Text.take n s) ≤ n
unfolding Text.length Text.take
length-take-le zero s = omega arith
length-take-le (suc n) String.[] = omega arith
length-take-le (suc n) (String.◌∷◌ c s) = omega (arith, length-take-le n s)

pub set-Keyed : (g : FestivalGame) (d : Dict FestivalGame) → Keyed d → Keyed (set g.game_id g d)
unfolding set
set-Keyed g [] h = (refl, tt)
set-Keyed g ((k, w) ∷ d) h = ground (arith, set-Keyed g d h.1, eq_iff k g.game_id)

pub del-Keyed : (k : String) (d : Dict FestivalGame) → Keyed d → Keyed (del k d)
unfolding del
del-Keyed k [] h = tt
del-Keyed k (e ∷ d) h = ground (arith, del-Keyed k d h.1)

-- A festival that `create` returns is valid.
pub create-IsValid :
    (festival_id name description : String) (starts_at ends_at : Datetime) (created_by : String)
    (now : Datetime) {f : Festival}
    → create festival_id name description starts_at ends_at created_by now ≡ ok f
    → IsValid f
unfolding create
create-IsValid festival_id name description starts_at ends_at created_by now h =
    ground (arith, length-take-le description_max (Text.strip description))

-- Every command that succeeds keeps a festival valid.
pub apply-IsValid :
    (f : Festival) (c : Command) {g : Festival} → IsValid f → apply f c ≡ ok g → IsValid g
unfolding apply
apply-IsValid f (reschedule s e now) v h = ground arith
apply-IsValid f (add_game k t d b now) v h = ground (
  arith,
  set-Distinct k (record { game_id = k; title = t; developer_id = d; added_by = b; added_at = now })
      f.games,
  set-Keyed (record { game_id = k; title = t; developer_id = d; added_by = b; added_at = now })
      f.games,
)
apply-IsValid f (remove_game k) v h = ground (arith, del-Distinct k f.games, del-Keyed k f.games)
apply-IsValid f (start now) v h = ground arith
apply-IsValid f (end_festival now) v h = ground arith
apply-IsValid f (cancel now) v h = ground arith

after-IsValid : (f : Festival) (c : Command) → IsValid f → IsValid (after f (apply f c))
after-IsValid f c v = go (apply f c) refl
  where
    go : (r : Result Festival) → apply f c ≡ r → IsValid (after f r)
    go (ok g) e = apply-IsValid f c v e
    go (err x) e = v

-- Whatever commands are given to a valid festival, in any order, those that raise included, it
-- stays valid.
pub run-IsValid : (f : Festival) (cs : List Command) → IsValid f → IsValid (run f cs)
unfolding run
run-IsValid f [] v = v
run-IsValid f (c ∷ cs) v = run-IsValid (after f (apply f c)) cs (after-IsValid f c v)
