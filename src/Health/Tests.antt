-- ===== src/Health/Tests.antt =====
-- A report on three probes.
use mathlib.Core.List.{Permᴰ}
use festival_service.Prelude.{String, Bool, true, false, ◌≡◌, refl, List, [], ◌∷◌, if◌then◌else◌}
use festival_service.Health.{Ending, returned, timed_out, Probe, report, readyz}
use festival_service.Health.Status.{overall, critical_fails, report_lem}

abbrev probe : String → Bool → Ending → Probe
probe name critical ending = record {
  name = name;
  critical = critical;
  timeout = "3.0";
  ending = ending;
}

abbrev probes : List Probe
probes = probe "postgres" true returned ∷ probe "cache" false timed_out ∷ []

-- The cache's check finishes first.
abbrev finished : List Probe
finished = probe "cache" false timed_out ∷ probe "postgres" true returned ∷ []

degraded : (report "s" "dev" probes finished).status ≡ "DEGRADED"
unfolding report
degraded = refl

report_lem_example :
    let r = report "s" "dev" probes finished in
    (r.status ≡ overall probes) × (readyz r ≡ (if critical_fails probes then 503 else 200))
unfolding festival_service.Dict.get
report_lem_example = report_lem "s" "dev" probes finished (refl, (refl, tt)) (Permᴰ.swap refl refl)
