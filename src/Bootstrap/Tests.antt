-- ===== src/Bootstrap/Tests.antt =====
-- The probes with Redis out of order and a long backlog.
use festival_service.Prelude.{true, ◌≡◌, refl}
use festival_service.Health.{returned, timed_out, report, readyz}
use festival_service.Bootstrap.{Surroundings, counted, probes}

abbrev troubled : Surroundings
troubled = record {
  redis = true;
  kafka = true;
  database = returned;
  cache = timed_out;
  backlog = counted 9000;
}

stays_ready : readyz (report "s" "dev" (probes troubled) (probes troubled)) ≡ 200
unfolding probes report readyz
stays_ready = refl
