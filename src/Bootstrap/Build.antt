-- ===== src/Bootstrap/Build.antt =====
-- `build` of app/bootstrap.py, with the settings of app/config.py and app/platform/config.py that it
-- reads: what the parts of the service are given, and where their construction raises. What the
-- libraries raise is a parameter; the pool, the sessions and the web framework are left out.
pub mod Agreement
mod Tests
use festival_service.Prelude.{
  ℕ, String, Bool, true, not, List, [], ◌∷◌, Option, none, some, if◌then◌else◌,
}
use festival_service.Text.{is_empty}
use festival_service.Errors.{◌>>=◌, ◌>>◌, Exception, Result, ok, err}
use festival_service.Call.{Settings}
use festival_service.Auth.{Verifier, new_verifier}
use festival_service.Config.{Config, owned_topics, is_production, load}
use festival_service.Directory
use festival_service.Directory.{new_client, rstrip_slash}
use festival_service.Dsn.{normalise_dsn}
use festival_service.Kafka
use festival_service.System.{consumer_of}
use festival_service.Bootstrap.Lifespan.{Wiring}

-- The settings of `Config` that its validators do not look at stand beside those that they do.
pub record AppConfig : Type 0 where
  pub base : Config
  pub open base use *
  pub log_level : String
  pub run_migrations : Bool
  pub kafka_enabled : Bool
  pub kafka_ensure_topics : Bool
  pub outbox_batch_size : ℕ
  pub auth_profile_base_url : String
  pub consumer_group : String
  pub redis_url : String
  pub cache_ttl_seconds : ℕ

-- The defaults; `database_url` has none.
unfoldable pub defaults : String → AppConfig
defaults database_url = record {
  base = record {
    service_name = "festival-service";
    environment = "local";
    database_url = database_url;
    kafka_brokers = "localhost:9092" ∷ [];
    jwt_secret = "";
    jwt_public_key = "";
    jwt_algorithm = "HS256";
    jwt_issuer = "arcadia-auth";
    jwt_audience = "arcadia";
    topic_game_events = "game-events";
    topic_festival_events = "festival-events";
  };
  log_level = "INFO";
  run_migrations = true;
  kafka_enabled = true;
  kafka_ensure_topics = true;
  outbox_batch_size = 100;
  auth_profile_base_url = "http://localhost:8085";
  consumer_group = "festival-service";
  redis_url = "";
  cache_ttl_seconds = 30;
}

-- What `build` gives to the parts, and what `lifespan` closes over.
pub record App : Type 0 where
  pub settings : Settings
  pub users : Directory.Client
  pub verifier : Verifier
  pub wiring : Wiring
  pub consumer : Kafka.Consumer
  pub topics : List String
  pub batch_size : ℕ
  pub has_docs : Bool

-- The arguments of the constructors.
unfoldable pub assemble : AppConfig → Verifier → App
unfolding new_client owned_topics is_production consumer_of is_empty
assemble cfg verifier = record {
  settings = record {
    service_name = cfg.service_name;
    topic_festival_events = cfg.topic_festival_events;
  };
  users =
      new_client cfg.auth_profile_base_url cfg.jwt_secret cfg.jwt_algorithm cfg.jwt_issuer
        cfg.jwt_audience cfg.service_name;
  verifier = verifier;
  wiring = record {
    run_migrations = cfg.run_migrations;
    kafka = cfg.kafka_enabled;
    ensure_topics = cfg.kafka_ensure_topics;
    redis = not (is_empty cfg.redis_url);
  };
  consumer = consumer_of cfg.topic_game_events cfg.consumer_group;
  topics = owned_topics cfg.base;
  batch_size = cfg.outbox_batch_size;
  has_docs = not (is_production cfg.base);
}

-- What the libraries raise: `Logger.setLevel` of a level, `create_async_engine` of an address,
-- `redis.from_url`, and `httpx.AsyncClient` of a base URL; `upper` is `str.upper`.
pub record Libraries : Type 0 where
  pub upper : String → String
  pub set_level : String → Option Exception
  pub create_async_engine : String → Option Exception
  pub from_url : String → Option Exception
  pub new_http_client : String → Option Exception

unfoldable pub raised_by : Option Exception → Result (Unit {0})
raised_by none = ok tt
raised_by (some e) = err e

-- The calls of `build` that can raise, up to the verifier: `logx.configure`, `create_engine`, the
-- client of Redis if there is one, and the client of the directory.
unfoldable pub construct : Libraries → AppConfig → Result (Unit {0})
unfolding raised_by normalise_dsn is_empty rstrip_slash
construct libs cfg = do
  raised_by (libs.set_level (libs.upper cfg.log_level))
  raised_by (libs.create_async_engine (normalise_dsn cfg.database_url))
  raised_by (if is_empty cfg.redis_url then none else libs.from_url cfg.redis_url)
  raised_by (libs.new_http_client (rstrip_slash cfg.auth_profile_base_url))

unfoldable pub build : Libraries → AppConfig → Result App
unfolding construct new_verifier assemble
build libs cfg = do
  construct libs cfg
  verifier ←
      new_verifier cfg.jwt_secret cfg.jwt_public_key cfg.jwt_algorithm cfg.jwt_issuer
        cfg.jwt_audience
  ok (assemble cfg verifier)

-- `build(get_config())`, of the settings as they are read.
unfoldable pub boot : Libraries → (String → String) → AppConfig → Result App
unfolding load build
boot libs lower raw = do base ← load lower raw.base; build libs (record raw { base = base })
