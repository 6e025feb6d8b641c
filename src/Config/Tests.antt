-- ===== src/Config/Tests.antt =====
-- A configuration for production, and one that still has the placeholder.
use festival_service.Prelude.{String, true, false, ◌&&◌, ◌||◌, ◌==◌, ◌≡◌, refl, [], ◌∷◌, ltb}
use festival_service.Text.{is_empty, length, starts_with, occurs}
use festival_service.Errors.{ok, err, value_error}
use festival_service.Auth.{Verifier, new_verifier}
use festival_service.Config.{Config, is_production, split_csv, load}
use festival_service.Config.Checks.{load_lem}

abbrev lower : String → String
lower s = s

abbrev config : String → Config
config secret = record {
  service_name = "festival-service";
  environment = "production";
  database_url = "postgres://db/festivals";
  kafka_brokers = "kafka:9092" ∷ [];
  jwt_secret = secret;
  jwt_public_key = "";
  jwt_algorithm = "HS256";
  jwt_issuer = "arcadia-auth";
  jwt_audience = "arcadia";
  topic_game_events = "game-events";
  topic_festival_events = "festival-events";
}

abbrev secret : String
secret = "0123456789abcdef0123456789abcdef"

brokers : split_csv "kafka:9092, other:9092," ≡ "kafka:9092" ∷ "other:9092" ∷ []
unfolding split_csv
brokers = refl

accepted : load lower (config secret) ≡ ok (config secret)
unfolding load
accepted = refl

placeholder : load lower (config "change-me-change-me-change-me-change-me") ≡ err value_error
unfolding load
placeholder = refl

load_lem_example :
    ((v : Verifier) × (new_verifier secret "" "HS256" "arcadia-auth" "arcadia" ≡ ok v)
      × (v.algorithm ≡ "HS256"))
    × ((starts_with "HS" "HS256"
          && (ltb (length secret) 32
              || (is_production (config secret) && occurs "change-me" (lower secret))))
        ≡ false)
    × (is_empty "postgres://db/festivals" ≡ false)
    × (("production" == "local"
          || "production" == "development"
          || "production" == "staging"
          || "production" == "production")
        ≡ true)
load_lem_example = load_lem lower (config secret) (config secret) accepted
