-- ===== src/Dsn/Tests.antt =====
-- The spellings of one address.
use festival_service.Prelude.{◌≡◌, refl}
use festival_service.Dsn.{normalise_dsn, strip_asyncpg_dsn}

short : normalise_dsn "postgres://db/festivals" ≡ "postgresql+asyncpg://db/festivals"
unfolding normalise_dsn
short = refl

plain : normalise_dsn "postgresql://db/festivals" ≡ "postgresql+asyncpg://db/festivals"
unfolding normalise_dsn
plain = refl

driver_named : normalise_dsn "postgres+asyncpg://db/festivals" ≡ "postgresql+asyncpg://db/festivals"
unfolding normalise_dsn
driver_named = refl

stripped : strip_asyncpg_dsn "postgres+asyncpg://db/festivals" ≡ "postgresql://db/festivals"
unfolding strip_asyncpg_dsn
stripped = refl
