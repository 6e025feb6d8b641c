-- ===== src/Bootstrap/Readiness.antt =====
-- When the probes of app/bootstrap.py call the service ready.
use mathlib.Core.List.{Permᴰ}
use festival_service.Prelude.{
  ℕ, String, Bool, true, false, ◌≡◌, refl, ◌∙◌, inl, inr, List, Bool-cases, if◌then◌else◌, arith,
}
use festival_service.Dict.{get, Distinct}
use festival_service.Health.{Ending, returned, timed_out, raising, Probe, report, readyz}
use festival_service.Health.Status.{critical_fails, entries, report_lem}
use festival_service.Bootstrap.{Surroundings, add, probes}

abbrev is_late : Ending → Bool
is_late returned = false
is_late _ = true

-- The answer to a readiness probe, by how the database's check ends.
abbrev pub status_for : Ending → ℕ
status_for returned = 200
status_for _ = 503

probes-Distinct : (s : Surroundings) → Distinct (entries (probes s))
unfolding probes add get
probes-Distinct s = elim (Bool-cases s.redis) [
  | inl cached ↦ elim (Bool-cases s.kafka) [
    | inl queued ↦ rw (probes, cached, queued) (refl, (refl, (refl, tt)))
    | inr direct ↦ rw (probes, cached, direct) (refl, (refl, tt))
  ]
  | inr uncached ↦ elim (Bool-cases s.kafka) [
    | inl queued ↦ rw (probes, uncached, queued) (refl, (refl, tt))
    | inr direct ↦ rw (probes, uncached, direct) (refl, tt)
  ]
]

-- The database's probe alone is critical.
probes-critical_fails : (s : Surroundings) → critical_fails (probes s) ≡ is_late s.database
unfolding probes add
probes-critical_fails s = ground arith

-- Whatever the order in which the checks finish, the service is ready exactly if the database
-- answers in time: neither Redis nor the backlog of the outbox takes it out of service.
ready_lem :
    (s : Surroundings) (service version : String) (finished : List Probe)
    → Permᴰ (probes s) finished
    → readyz (report service version (probes s) finished) ≡ status_for s.database
ready_lem s service version finished order =
    (report_lem service version (probes s) finished (probes-Distinct s) order).1
    ∙ rw (probes-critical_fails s) (answer s.database)
  where
    answer : (e : Ending) → (if is_late e then 503 else 200) ≡ status_for e
    answer returned = refl
    answer timed_out = refl
    answer (raising error) = refl
