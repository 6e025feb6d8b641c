-- ===== src/Call.antt =====
-- What one call of a use case takes from its surroundings: the configuration that the composition
-- root passes in, the clock, fresh ids and the correlation id of the request.
use festival_service.Prelude.{String}
use festival_service.Datetime.{Datetime}

pub record Settings : Type 0 where
  pub service_name : String
  pub topic_festival_events : String

pub record Call : Type 0 where
  -- `self._clock.now()`
  pub now : Datetime
  -- `self._new_id()`
  pub new_id : String
  -- the `event_id` and the `occurred_at` of the envelope that the call builds
  pub event_id : String
  pub occurred_at : Datetime
  -- `correlation_id_var.get()`
  pub correlation_id : String
  -- `datetime.now(UTC)` where a promotion carries no `starts_at` or no `ends_at`
  pub default_starts_at : Datetime
  pub default_ends_at : Datetime
