-- ===== src/Config.antt =====
-- app/platform/config.py and app/config.py: what the configuration is checked for before the
-- service starts, and the topics that it owns. Reading the environment is pydantic's; `lower` is
-- `str.lower`.
pub mod Checks
mod Tests
use festival_service.Prelude.{
  ℕ, String, Bool, true, false, not, ◌&&◌, ◌||◌, ◌==◌, List, [], ◌∷◌, ltb, if◌then◌else◌,
}
use festival_service.Text.{is_empty, length, strip, f_string, starts_with, occurs, split_from}
use festival_service.Errors.{Result, ok, err, value_error, raise_if, ◌>>=◌, ◌>>◌}

-- The settings that are checked, or that other parts of the model use.
pub record Config : Type 0 where
  pub service_name : String
  pub environment : String
  pub database_url : String
  pub kafka_brokers : List String
  pub jwt_secret : String
  pub jwt_public_key : String
  pub jwt_algorithm : String
  pub jwt_issuer : String
  pub jwt_audience : String
  pub topic_game_events : String
  pub topic_festival_events : String

-- `[item.strip() for item in items if item.strip()]`
unfoldable pub stripped : List String → List String
unfolding strip is_empty
stripped [] = []
stripped (item ∷ items) =
    let rest = stripped items in if is_empty (strip item) then rest else strip item ∷ rest

-- `_split_csv`, of a text; 44 is the comma.
unfoldable pub split_csv : String → List String
unfolding stripped split_from
split_csv value = stripped (split_from 44 "" value)

-- `Config.owned_topics`
unfoldable pub owned_topics : Config → List String
unfolding f_string
owned_topics c =
    c.topic_festival_events
    ∷ f_string (c.topic_festival_events ∷ ".dlq" ∷ [])
    ∷ f_string (c.topic_game_events ∷ ".dlq" ∷ [])
    ∷ []

unfoldable pub is_production : Config → Bool
is_production c = c.environment == "production"

module _ (lower : String → String) where
  -- `_known_environment`
  unfoldable pub known_environment : String → Result String
  known_environment value =
      let lowered = lower value in
      if lowered == "local"
        || lowered == "development"
        || lowered == "staging"
        || lowered == "production"
      then ok lowered
      else err value_error

  -- The part of `_check_secrets` about the keys.
  unfoldable pub check_keys : Config → Result (Unit {0})
  unfolding starts_with is_empty length occurs is_production
  check_keys c =
      if starts_with "HS" c.jwt_algorithm
      then (raise_if (is_empty c.jwt_secret) value_error
          >> raise_if (ltb (length c.jwt_secret) 32) value_error
          >> raise_if (is_production c && occurs "change-me" (lower c.jwt_secret)) value_error)
      else if starts_with "RS" c.jwt_algorithm
      then raise_if (is_empty c.jwt_public_key) value_error
      else err value_error

  -- `_check_secrets`
  unfoldable pub check_secrets : Config → Result Config
  unfolding check_keys is_empty
  check_secrets c = do check_keys c; raise_if (is_empty c.database_url) value_error; ok c

  -- A configuration is made: `_known_environment`, then `_check_secrets`.
  unfoldable pub load : Config → Result Config
  unfolding known_environment check_secrets
  load raw = do
    environment ← known_environment raw.environment
    check_secrets (record raw { environment = environment })
