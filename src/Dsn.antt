-- ===== src/Dsn.antt =====
-- The two spellings of the database's address: `_normalise_dsn` and `strip_asyncpg_dsn` of
-- app/platform/db.py.
mod Tests
use Prim.Native.String
use festival_service.Prelude.{String, Bool, ◌||◌, ◌≡◌, refl, Option, none, some, if◌then◌else◌}
use festival_service.Text.{starts_with, drop_prefix, replace_once}

-- The second loop over the prefixes.
abbrev with_driver : Option String → Option String → String → String
with_driver (some rest) short dsn = String.◌++◌ "postgresql+asyncpg://" rest
with_driver none (some rest) dsn = String.◌++◌ "postgresql+asyncpg://" rest
with_driver none none dsn = dsn

unfoldable pub normalise_dsn : String → String
unfolding starts_with drop_prefix replace_once
normalise_dsn dsn =
    if starts_with "postgresql+asyncpg://" dsn || starts_with "postgres+asyncpg://" dsn
    then replace_once "postgres+asyncpg://" "postgresql+asyncpg://" dsn
    else with_driver (drop_prefix "postgresql://" dsn) (drop_prefix "postgres://" dsn) dsn

unfoldable pub strip_asyncpg_dsn : String → String
unfolding normalise_dsn replace_once
strip_asyncpg_dsn dsn = replace_once "postgresql+asyncpg://" "postgresql://" (normalise_dsn dsn)
