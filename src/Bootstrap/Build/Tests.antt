-- ===== src/Bootstrap/Build/Tests.antt =====
-- The defaults, and a configuration that is given a secret.
use festival_service.Prelude.{String, ◌≡◌, refl, ◌⊎◌, none, some, ◌==◌, if◌then◌else◌}
use festival_service.Errors.{Exception, ok, err, value_error}
use festival_service.Config.{Config, load}
use festival_service.Bootstrap.Build.{AppConfig, Libraries, defaults, boot}
use festival_service.Bootstrap.Build.Agreement.{Fault, Built, boot_lem}

abbrev lower : String → String
lower s = s

-- Libraries that take every setting but an unknown log level.
abbrev libs : Libraries
libs = record {
  upper = λ s. s;
  set_level = λ level. if level == "INFO" then none else some value_error;
  create_async_engine = λ dsn. none;
  from_url = λ url. none;
  new_http_client = λ url. none;
}

-- The defaults have no secret, and are refused.
defaults_refused : boot libs lower (defaults "postgres://db/festivals") ≡ err value_error
unfolding boot defaults
defaults_refused = refl

abbrev given : AppConfig
given = record (defaults "postgres://db/festivals") {
  base = record (defaults "postgres://db/festivals").base {
    jwt_secret = "0123456789abcdef0123456789abcdef";
  };
}

boot_lem_example :
    ((e : Exception) × (load lower given.base ≡ err e) × (boot libs lower given ≡ err e))
    ⊎ ((base : Config) × (load lower given.base ≡ ok base)
        × (((e : Exception) × Fault libs (record given { base = base }) e
              × (boot libs lower given ≡ err e))
            ⊎ Built libs lower given base))
boot_lem_example = boot_lem libs lower given
