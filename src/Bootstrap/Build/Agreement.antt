-- ===== src/Bootstrap/Build/Agreement.antt =====
-- What the parts that `build` makes have in common.
use festival_service.Prelude.{
  String, ◌≡◌, refl, ap, sym, ◌∙◌, ◌⊎◌, inl, inr, false, [], ◌∷◌, arith, Bool-cases, none, some,
  Option-cases, if◌then◌else◌,
}
use festival_service.Text.{is_empty, starts_with, f_string}
use festival_service.Errors.{Exception, ok, err, Result-cases}
use festival_service.Auth.{Verifier, new_verifier}
use festival_service.Config.{Config, owned_topics, load}
use festival_service.Config.Checks.{load_lem}
use festival_service.Directory.{new_client, rstrip_slash}
use festival_service.Dsn.{normalise_dsn}
use festival_service.Kafka.{new_consumer}
use festival_service.System.{consumer_of}
use festival_service.Bootstrap.Build.{
  AppConfig, App, Libraries, assemble, construct, raised_by, build, boot,
}

-- The token of the directory's client is signed as the verifier checks it, with the verifier's key
-- where the algorithm is symmetric.
pub record SignsAsChecked (app : App) : Type 0 where
  pub algorithm : app.users.jwt_algorithm ≡ app.verifier.algorithm
  pub issuer : app.users.jwt_issuer ≡ app.verifier.issuer
  pub audience : app.users.jwt_audience ≡ app.verifier.audience
  pub key :
      (starts_with "HS" app.verifier.algorithm ≡ false) ⊎ (app.users.jwt_secret ≡ app.verifier.key)

-- The topics that are made are that of the outbox, that of its dead letters, and the one that the
-- consumer sends its dead letters to.
pub record WritesToOwned (app : App) : Type 0 where
  pub topics :
      app.topics
      ≡ app.settings.topic_festival_events
        ∷ f_string (app.settings.topic_festival_events ∷ ".dlq" ∷ [])
        ∷ app.consumer.dlq_topic
        ∷ []

new_verifier-key :
    (secret public_key algorithm issuer audience : String) (v : Verifier)
    → new_verifier secret public_key algorithm issuer audience ≡ ok v
    → (v.algorithm ≡ algorithm)
      × (v.issuer ≡ issuer)
      × (v.audience ≡ audience)
      × ((starts_with "HS" v.algorithm ≡ false) ⊎ (secret ≡ v.key))
unfolding new_verifier
new_verifier-key secret public_key algorithm issuer audience v made =
    elim (Bool-cases (starts_with "HS" algorithm)) [
      | inl symmetric ↦ (ground arith, ground arith, ground arith, inr (ground arith))
      | inr other ↦
          let same : v.algorithm ≡ algorithm = ground arith in
          (same, ground arith, ground arith, inl (ap (starts_with "HS") same ∙ other))
    ]

-- A setting that a library does not take.
pub data Fault (libs : Libraries) (cfg : AppConfig) (e : Exception) : Type 0 where
  bad_level : libs.set_level (libs.upper cfg.log_level) ≡ some e → Fault libs cfg e
  bad_address :
      libs.create_async_engine (normalise_dsn cfg.database_url) ≡ some e → Fault libs cfg e
  bad_redis :
      is_empty cfg.redis_url ≡ false → libs.from_url cfg.redis_url ≡ some e → Fault libs cfg e
  bad_directory :
      libs.new_http_client (rstrip_slash cfg.auth_profile_base_url) ≡ some e → Fault libs cfg e

from_url-Fault :
    (libs : Libraries) (cfg : AppConfig) (e : Exception)
    → (if is_empty cfg.redis_url then none else libs.from_url cfg.redis_url) ≡ some e
    → Fault libs cfg e
from_url-Fault libs cfg e h = elim (Bool-cases (is_empty cfg.redis_url)) [
  | inl absent ↦ absurd (ground arith)
  | inr present ↦ bad_redis present (ground arith)
]

construct_outcome :
    (libs : Libraries) (cfg : AppConfig)
    → ((e : Exception) × Fault libs cfg e × (construct libs cfg ≡ err e))
      ⊎ (construct libs cfg ≡ ok tt)
unfolding construct raised_by
construct_outcome libs cfg = elim (Option-cases (libs.set_level (libs.upper cfg.log_level))) [
  | inr (e, level) ↦ inl (e, bad_level level, rw level refl)
  | inl level ↦ elim (Option-cases (libs.create_async_engine (normalise_dsn cfg.database_url))) [
    | inr (e, address) ↦ inl (e, bad_address address, rw (level, address) refl)
    | inl address ↦
        elim (Option-cases (if is_empty cfg.redis_url then none else libs.from_url cfg.redis_url)) [
          | inr (e, url) ↦ inl (e, from_url-Fault libs cfg e url, ground arith)
          | inl url ↦
              elim (Option-cases (libs.new_http_client (rstrip_slash cfg.auth_profile_base_url))) [
                | inr (e, base) ↦ inl (e, bad_directory base, ground arith)
                | inl base ↦ inr (ground arith)
              ]
        ]
  ]
]

-- The service that is made of an accepted configuration.
pub record Built (libs : Libraries) (lower : String → String) (raw : AppConfig) (base : Config)
    : Type 0 where
  pub app : App
  pub result : boot libs lower raw ≡ ok app
  pub signs : SignsAsChecked app
  pub writes : WritesToOwned app

-- A start ends in one of three ways. The validators of the configuration refuse it; or a library
-- does not take the log level, the address of the database, that of Redis or the URL of the
-- directory; or a service is made. Its token for the directory has the algorithm, the issuer and the
-- audience that its own verifier checks, and with a symmetric algorithm the verifier's key; and the
-- topics that it makes at the start are those that its outbox and the dead letters of its consumer
-- go to.
pub boot_lem :
    (libs : Libraries) (lower : String → String) (raw : AppConfig)
    → ((e : Exception) × (load lower raw.base ≡ err e) × (boot libs lower raw ≡ err e))
      ⊎ ((base : Config) × (load lower raw.base ≡ ok base)
          × (((e : Exception) × Fault libs (record raw { base = base }) e
                × (boot libs lower raw ≡ err e))
              ⊎ Built libs lower raw base))
unfolding boot build assemble new_client owned_topics consumer_of new_consumer
boot_lem libs lower raw = elim (Result-cases (load lower raw.base)) [
  | inr (e, refused) ↦ inl (e, refused, rw refused refl)
  | inl (base, accepted) ↦ elim (construct_outcome libs (record raw { base = base })) [
    | inl (e, fault, stopped) ↦ inr (base, accepted, inl (e, fault, rw (accepted, stopped) refl))
    | inr constructed ↦
        let made = (load_lem lower raw.base base accepted).0 in
        let (algorithm, issuer, audience, key) =
          new_verifier-key base.jwt_secret base.jwt_public_key base.jwt_algorithm base.jwt_issuer
            base.jwt_audience made.0 made.1 in
        inr (
          base,
          accepted,
          inr (record {
            app = assemble (record raw { base = base }) made.0;
            result = rw (accepted, constructed, made.1) refl;
            signs = record {
              algorithm = sym algorithm;
              issuer = sym issuer;
              audience = sym audience;
              key = key;
            };
            writes = record { topics = refl };
          }),
        )
  ]
]
