-- ===== src/Lib.antt =====
-- Verification of festival-service: the service of a game shop that plans festivals, keeps the
-- games that admins select for them, mirrors games and promotions from the catalog, and announces
-- what happens through an outbox.
--
-- The parts and how they interact. A request runs a use case of
-- app/application/festival_service.py. It opens a unit of work (app/platform/db.py), loads the
-- aggregate through the repository, runs one command of it, saves it, and enqueues an event in the
-- same transaction; then it answers with the page of the festival, which a second, read-only unit
-- of work loads. The routes of app/adapters/inbound/rest let administrators in
-- (app/platform/auth.py) and answer failures with problem documents (app/platform/http.py); reads
-- go through a cache (app/platform/cache.py). Messages of the catalog reach the handlers of
-- app/application/catalog_sync_service.py, on the same database, through the consumer of
-- app/platform/kafka.py. A dispatcher (app/platform/outbox.py) sends the events of the outbox to
-- the broker. Before it serves, the service checks its configuration and migrates its schema.
--
-- Which file models what:
--   Festival         app/domain/festival.py: one function for each command; a method that changes
--                    its object gives the changed festival, or the exception that it raises.
--                    Commands: the commands as data, and runs of them. Invariant, Lifecycle,
--                    Selection, Window: their proofs
--   Snapshots        app/domain/catalog_sync.py
--   Service          app/application/festival_service.py: a use case `X` whose block under
--                    `uow.begin()` is `X_block`; Payloads has the payloads of the events.
--                    Session, Update, Carried, Detail, Actions and Refinement compare the use
--                    cases with plans, which say for each action the command and the event;
--                    Creation is about `create`, Audience about the lookup in `start`, and Enqueues
--                    about the outbox.
--                    Listing has `list` and its page; Pages and Walk have its proofs
--   Rest             app/adapters/inbound/rest: the routes that change festivals; Browse has the
--                    public ones. Routes, Guarded and Reads have the proofs, Histories those about
--                    sequences of requests, and Enqueues those about the outbox
--   Auth             app/platform/auth.py: roles, `verify`, `current_principal`, `require`; Access
--                    has the proofs
--   Http             app/platform/http.py: `problem`, the handlers, `_observe`; Problems and
--                    Observed have the proofs
--   Consumer         app/adapters/inbound/consumer.py; Registered, Rollback, Handlers and Atomic
--                    have the proofs
--   Kafka            app/platform/kafka.py: the router, the retries and dead letters of the
--                    consumer, one round of its loop; Retries, Fates and Accounting have the
--                    proofs. Loop has the loop over messages and its proof, Clients has start, stop,
--                    `send` and `ensure_topics`
--   Migrate          app/platform/migrate.py; Runs and Failures have the proofs. Discover has the
--                    files of the directory, Replicas several replicas at once, with their proofs
--   Health           app/platform/health.py; Status has the proofs
--   Bootstrap        app/bootstrap.py: the probes; Readiness has the proof. Build has the settings
--                    that `build` gives to the parts, Agreement its proof; Lifespan has `lifespan`,
--                    Order and Stops its proofs
--   System           what app/bootstrap.py puts together: requests, messages of the catalog and
--                    batches of the outbox on one database; Sound, Messages and Runs have the proofs
--   Config           app/platform/config.py, app/config.py; Checks has the proofs
--   Cache            app/platform/cache.py; FailsOpen has the proofs
--   Logging          app/platform/logging.py; Redaction has the proofs
--   CatalogSync      app/application/catalog_sync_service.py; Payload reads the payloads, Prices,
--                    Effects, Announced and Announcement have the proofs
--   Dto              app/application/dto.py
--   Repositories     app/adapters/outbound/repositories.py: Mapping (`_to_festival` and its
--                    like), Festivals, Listing, CatalogGames, Promotions; Games, Sync and RoundTrip
--                    have the proofs
--   Rows             app/adapters/outbound/models.py: the tables, as dictionaries by primary key
--   Publisher, Call  app/adapters/outbound/publisher.py, and what a call reads from its context
--   Directory        app/adapters/outbound/auth_profile.py; Token has the proof
--   Exec             app/platform/db.py: `Exec A` takes the world (the committed database, and the
--                    copy of the open session) to a result or an exception and the next world.
--                    UnitOfWork has the proofs, Keeps the rules for what is kept
--   Dsn              app/platform/db.py: the two spellings of the address
--   Outbox           app/platform/outbox.py: `enqueue`; Dispatcher has the batch, the loop and the
--                    backlog, Delivery and Rounds the proofs, History those about the outbox over
--                    time
--   Events           app/platform/events.py and the names of app/application/events.py; Decode has
--                    `Envelope.decode`, RoundTrip and Refusals the proofs
--   Errors           app/platform/errors.py
--   Money            app/platform/money.py; Allocate has `allocate` and the comparisons; Arithmetic,
--                    Codes, Shares and Sums have the proofs
--   Dict, Text, Int, Datetime, Json, Sorting, Prelude: the language's dict (a list of pairs in
--                    insertion order), str, int, datetime (aware or naive; comparing the two
--                    raises), JSON values, and stable sorting
--   The modules named Tests hold concrete inputs; Samples has those that they share.
--
-- Parameters. `Runtime` has the functions of the language's library that the code calls and that
-- are not defined here (upper case, isoformat, fromisoformat, repr). The broker, the rows that
-- other replicas lock and the clock are parameters of the dispatcher; the outcome of the HTTP
-- request for the audience is a value of `Lookup`; the ids and times that a request draws are
-- fields of `Call`. Nothing is assumed of them but where a theorem says so.
-- What `jwt.decode`, Redis, the checks of the dependencies, SHA-256, the statements of a migration
-- and FastAPI's reading of a body come to are parameters of the modules that use them, and so are
-- `str.lower`, the order of ids in the database's collation, and what the constructors that `build`
-- calls raise.
--
-- Bounds and fuel. Numbers are unbounded, as the language's are. The digits of a number n are
-- taken with fuel n + 1, and a text is searched with its length as fuel, which is enough since each
-- step divides the number or shortens the text. `int()` reads ASCII digits only. The retries of the
-- consumer run on fuel max_retries + 1, which is enough since each run counts as an attempt.
--
-- Not modelled: how long the loops sleep, and cancellation in the middle of a handler; log lines,
-- metrics but for the count of requests; pydantic's and FastAPI's own checks, the pool, the
-- sessions and the installed middleware of app/bootstrap.py; the widths of columns, errors of the
-- driver, a commit of the database that fails, and in System a commit of an offset that fails.
-- Transactions run one after the other: the row lock of `get_for_update` makes the writers of one
-- festival wait.
pub mod Prelude
pub mod Dict
pub mod Text
pub mod Errors
pub mod Datetime
pub mod Festival
pub mod Int
pub mod Json
pub mod Runtime
pub mod Money
pub mod Rows
pub mod Exec
pub mod Snapshots
pub mod Sorting
pub mod Repositories
pub mod Events
pub mod Call
pub mod Samples
pub mod Outbox
pub mod Kafka
pub mod Publisher
pub mod Directory
pub mod Dto
pub mod Service
pub mod CatalogSync
pub mod Consumer
pub mod Auth
pub mod Http
pub mod Rest
pub mod System
pub mod Migrate
pub mod Health
pub mod Bootstrap
pub mod Cache
pub mod Config
pub mod Dsn
pub mod Logging
