-- ===== src/Bootstrap.antt =====
-- app/bootstrap.py: the probes that `build` registers. How the database, Redis and the count of the
-- outbox end are parameters.
pub mod Readiness
pub mod Lifespan
pub mod Build
mod Tests
use festival_service.Prelude.{ℕ, String, Bool, true, false, List, [], ◌∷◌, ◌++◌, ltb, if◌then◌else◌}
use festival_service.Int.{pos}
use festival_service.Text.{f_string}
use festival_service.Text.Number.{str_of_int}
use festival_service.Health.{Ending, returned, timed_out, raising, Probe}

-- `Registry.add`, with the default timeout.
unfoldable pub add : String → Ending → Bool → List Probe → List Probe
add name ending critical probes =
    probes ++ record { name = name; critical = critical; timeout = "3.0"; ending = ending } ∷ []

-- How `dispatcher.backlog()` ends.
pub data Backlog : Type 0 where
  counted : ℕ → Backlog
  late : Backlog
  unreadable : String → Backlog

-- `check_outbox`
unfoldable pub check_outbox : Backlog → Ending
unfolding f_string str_of_int
check_outbox (counted backlog) =
    if ltb 5000 backlog
    then raising (f_string ("outbox backlog is " ∷ str_of_int (pos backlog) ∷ []))
    else returned
check_outbox late = timed_out
check_outbox (unreadable error) = raising error

-- What the probes of one report meet; `redis` and `kafka` say whether these are configured.
pub record Surroundings : Type 0 where
  pub redis : Bool
  pub kafka : Bool
  pub database : Ending
  pub cache : Ending
  pub backlog : Backlog

unfoldable pub probes : Surroundings → List Probe
unfolding add check_outbox
probes s =
    let base = add "postgres" s.database true [] in
    let with_cache = if s.redis then add "cache" s.cache false base else base in
    if s.kafka then add "outbox" (check_outbox s.backlog) false with_cache else with_cache
