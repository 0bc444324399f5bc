-- ===== src/Lib.antt =====
-- A webhook relay service: it takes webhooks over HTTP, stores them in a database and relays them
-- to one target from a bounded background queue.
--
-- The parts, and the files that model them:
--   Config      app/core/config.py: `csv_set`, `env_bool`, `Settings`, `get_settings`.
--   Security    app/core/security.py: body size, webhook signature, admin token.
--   Event       app/db/models.py: the row, its constraints (Event/Unique), its order (Event/Order) and
--               what is found under an id (Event/Lookup).
--   Database    what the program relies on of SQLAlchemy and the database, as an interface with laws;
--               Database/Table fills it with a list of rows; Database/View is what `db.get` finds after
--               each statement; Database/Engine is the engine of `init_db` of app/db/session.py.
--   App         the state of the process: the session factory and `get_db` of app/db/session.py, the
--               module globals of app/services/relay.py, the counters of app/metrics.py.
--   Relay       app/services/relay.py: Preflight is `_preflight_target`, Attempts the retry loop of
--               `relay_event`, Outcome what it returns, Dispatch the queue and its workers.
--   Routes      app/api/routes.py and app/schemas/api.py: Request and Intake are `create_event`,
--               Background `_relay_and_persist`, Cursor and Listing the read routes, Admin the cleanup
--               (with app/services/cleanup.py and app/scripts/cleanup.py), Probes
--               the health checks (with app/services/health.py).
--   Main        the lifespan of app/main.py, with `init_db` of app/db/session.py.
--   Http        app/core/errors.py, and the middleware and the handlers of app/main.py: a webhook from
--               the request to the response; Http/Endpoints has all routes, with what
--               is written of their answers as JSON.
--   System      the whole process as a step relation: requests, cleanups, turns of the workers
--               and restarts. System/Ledger has what it promises of the events, with no queue and no
--               table, System/Refined/Spec which step may do what, and System/Refined relates them; System/Served has the requests of HTTP as
--               steps, System/Bounded the dispatcher's own, System/Delivered counts the relays.
--   Logging     app/core/logging.py: the filter, the formatter and `setup_logging`.
--   Receiver    perf/receivers/receiver_server.py: the server that load tests relay to.
--   Migration   alembic/versions/0001_initial.py, over an interface of alembic's operations;
--               Migration/Model is the table of app/db/models.py and its creation by `init_db`,
--               Migration/Widths the widths of its columns, Migration/Env alembic/env.py, over
--               alembic's context and configuration;
--               Migration/Plain fills the interfaces.
--   Platform    the functions that the program calls and does not implement, as parameters.
--   Prelude, Text, Result, Datetime, Json: shared types, texts, exceptions, times and JSON values.
--   Examples    concrete inputs on which the model runs.
--
-- How they interact: `create_event` checks the request (Security), inserts the event (Database, in a
-- transaction of App) and puts a job into the queue (Relay/Dispatch); a worker runs the job, which
-- relays the event (Relay/Attempts, after Relay/Preflight) and writes the result to the row
-- (Routes/Background); the read routes show it (Routes/Listing).
--
-- How code corresponds to the model: a method that changes the state of the process and may raise is
-- a function of the state to a result and a state (`Exec`); what it wrote before it raises stays
-- written, but a transaction writes as a whole. An `await` is a point where other tasks run:
-- `create_event` has none after it has read the body; `relay_and_persist` takes what the others do
-- as a function. The queue and its workers are a step relation (`Run`), so every interleaving of
-- enqueueing, starting and ending jobs is one of its runs; `Reach` has them between requests, cleanups
-- and restarts, over the whole state, where a request is one step, a relay begins and ends in two,
-- and the counters may move at any time. A set of texts is a list of its members, in the order in
-- which they are first met, and a dict of headers an association list.
--
-- Numbers: times are microseconds, the jitter is in thousandths and the delays are exact, where the
-- code uses floating point; integers have no bound, as in Python. The retry loop recurs on the number
-- of attempts that are left, four at first. `walk`, a client of the listing, takes fuel: a page more
-- than there are events is enough.
--
-- Not modelled: what is logged where, the text format of the metrics, the framework's routing and its
-- reading of parameters, what SQLite does with its pragmas, the tests. Parameters with named laws: the
-- database (`Database`), the encodings of a cursor (`IsCodec`), alembic's operations (`Op`),
-- `create_all` (`Creation`), and alembic's context and configuration (`Alembic`); without laws: HMAC,
-- UTF-8, JSON, URL and address parsing, name resolution, the network, the clock, and
-- of the framework and the database (`Framework`) the details of a limit that is out of bounds, whether
-- an answer with payloads can be written as JSON, and whether `SELECT 1` is answered. An answer without
-- payloads is taken as one that can be written: it holds numbers, times, ids and texts of the program.
pub mod Prelude
pub mod Text
pub mod Result
pub mod Datetime
pub mod Json
pub mod Platform
pub mod Config
pub mod Security
pub mod Event
pub mod Database
pub mod App
pub mod Relay
pub mod Routes
pub mod Main
pub mod Http
pub mod System
pub mod Logging
pub mod Receiver
pub mod Migration
pub mod Examples
