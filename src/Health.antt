-- ===== src/Health.antt =====
-- app/platform/health.py: the registry of probes and its report, and what app/platform/http.py
-- answers to a readiness probe. How each check ends and in which order they finish are parameters.
pub mod Status
mod Tests
use festival_service.Prelude.{
  ℕ, String, Bool, true, false, not, ◌&&◌, ◌==◌, Option, none, some, List, [], ◌∷◌, if◌then◌else◌,
}
use festival_service.Text.{f_string, take}
use festival_service.Dict.{Dict, get, set}

-- How `asyncio.wait_for(probe.check(), timeout)` ends; an exception with its text.
pub data Ending : Type 0 where
  returned timed_out : Ending
  raising : String → Ending

-- A probe, with its timeout as an f-string shows it, and how its check ends.
pub record Probe : Type 0 where
  pub name : String
  pub critical : Bool
  pub timeout : String
  pub ending : Ending

-- `results[probe.name]`
unfoldable pub result_of : Probe → Dict String
unfolding f_string take
result_of p = elim p.ending [
  | returned ↦ ("status", "UP") ∷ []
  | timed_out ↦
      ("status", "DOWN") ∷ ("error", f_string ("timed out after " ∷ p.timeout ∷ "s" ∷ [])) ∷ []
  | raising error ↦ ("status", "DOWN") ∷ ("error", take 200 error) ∷ []
]

-- The dictionary after the probes of the list have finished, in this order.
unfoldable pub collect : Dict (Dict String) → List Probe → Dict (Dict String)
unfolding result_of set
collect results [] = results
collect results (p ∷ finished) = collect (set p.name (result_of p) results) finished

-- `results[probe.name]["status"] == "DOWN"`; `collect` has an entry for every probe.
unfoldable pub is_down : Dict (Dict String) → Probe → Bool
unfolding get
is_down results p = elim (get p.name results) [
  | none ↦ false
  | some result ↦ elim (get "status" result) [ none ↦ false | some status ↦ status == "DOWN" ]
]

-- The loop that combines the results.
unfoldable pub combine : Dict (Dict String) → String → List Probe → String
unfolding is_down
combine results status [] = status
combine results status (p ∷ probes) =
    if is_down results p
    then combine results
        (if p.critical then "DOWN" else if status == "UP" then "DEGRADED" else status) probes
    else combine results status probes

pub record Report : Type 0 where
  pub status : String
  pub service : String
  pub version : String
  pub checks : Dict (Dict String)

-- `Registry.report`, for probes that finish in the order of the second list.
unfoldable pub report : String → String → List Probe → List Probe → Report
unfolding collect combine
report service version probes finished =
    let results = collect [] finished in
    record {
      status = combine results "UP" probes;
      service = service;
      version = version;
      checks = results;
    }

-- `readyz`
unfoldable pub readyz : Report → ℕ
readyz r = if not (r.status == "DOWN") then 200 else 503
