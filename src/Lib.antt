-- ===== src/Lib.antt =====
-- A model of the ORBI inference gateway (apps/gateway/src/orbi_gateway) and the theorems on it.
-- Clients send chat requests; the gateway reserves tokens of the project's budget, stores each
-- request as a row of a PostgreSQL queue, and waits; workers claim rows, and report a result or an
-- error; a periodic pass takes back the requests of silent workers. Transactions are functions of
-- a database value, raised exceptions are a result that carries no database, and the gateway as a
-- whole is a step relation over its database, with a step for each committed transaction in any
-- order. Routes and Application say that what main.py runs, request by request, is a run of that
-- relation.
--
-- The parts:
--
-- - Base: shared helpers. Base.Tests has Python's tests as Boolean functions, Base.Table the
--   queries on a table, Base.Text texts as lists of code points with Python's int and regular
--   expressions, Base.Calendar instants in microseconds since 1970 and their UTC date, Base.Int
--   signed integers, Base.Json JSON values.
-- - Errors: errors.py, and the exceptions that the services raise.
-- - Entities: models/entities.py, with the status texts as enumerations in Entities.Status.
-- - Schemas: schemas/api.py, the bounds of the fields; Slugs is on one of its patterns, Bounds on
--   what a valid request can reserve. Config: config.py.
-- - Budget: services/budget.py. Children: Frame (what stays), Limits (what is enforced and
--   reserved), Settlement (release and reconciliation).
-- - Queue: services/queue.py, with one child per method of QueueService: Claim, Commit, Failure,
--   Recovery. Rows and Rows.Operations state once how each method changes rows, Lifecycle gives
--   the state machine of a request, Shape the columns of each state, Usage the usage records,
--   Selection the choice of a claim, Totality that no method raises.
-- - Accounting: what Budget and Queue promise together, an exact account of each project's
--   counters in the current day and month.
-- - Idempotency: services/idempotency.py.
-- - Chat: routes/chat.py. Children: Acceptance (what an accepted call leaves), Charges (that it is
--   paid for), Wait (the wait for the result).
-- - ApiKeys: services/api_keys.py, with the format of keys in ApiKeys.Formats. WorkerTokens:
--   services/worker_tokens.py. RateLimit: services/rate_limit.py.
-- - Auth: dependencies.py; Auth.Clients states who passes require_api_key.
-- - WorkerRoutes: routes/internal/workers.py; Enrollment is on one-time registration, Tokens on
--   which tokens are accepted. Admin: routes/admin.py; Admin.Revocation is on revoked credentials.
-- - CircuitBreaker: services/circuit_breaker.py, over an abstract Redis hash. WorkerHealth:
--   services/worker_health.py.
-- - Gateway: the step relation, its invariant (Invariant, Ownership, Soundness), what stays over a
--   run (History, Promises), repeated calls (Idempotence), and that the queue keeps working
--   (Service).
-- - Middleware: middleware.py, as a transformer of ASGI applications; an application is the tree
--   of its interactions with the server. Limit runs it against a server, Description says without
--   the code what is to be counted, added and refused, Requests states what it does with a whole
--   request.
-- - Logging: logging.py. Token says what the expression matches, Redaction and Clean that no token
--   is left in a text, Events the same of nested values, Credentials that generated credentials
--   are found.
-- - Routes: the routes with their dependencies, each in a transaction of database.py, with
--   routes/models.py and routes/usage.py. Dispatch has each route, Frames, Leads and Steps their
--   place in the step relation.
-- - Application: main.py. Startup is on what the settings promise, Events on sequences of requests
--   and maintenance cycles.
-- - Migration: apps/gateway/alembic/versions/0001_phase1_foundation.py. Schema has tables,
--   columns, indexes and the interface of alembic's operations, Accounts and Records the tables,
--   Reversal is about the downgrade after the upgrade.
-- - Bootstrap: scripts/bootstrap-dev.py, over a store of files. EnvFile is the interface of
--   dotenv, which reads the file that it writes, Reading about what config.py makes of that,
--   Admission about a whole run.
-- - Tests: a sample database, and each theorem on it.
--
-- Conventions. An id (a UUID) is a number, as ids are only compared; times are read from
-- arguments, one for each reading in the source. The counters of projects and keys are unbounded
-- numbers; the reservation of a request is shown to fit into its column, and a report of a result
-- raises if its numbers do not fit theirs, which have 32 bits. PostgreSQL's containment of JSONB
-- and pydantic's model_dump are parameters. Rows that another transaction has locked are an
-- argument of the claim, since the statement skips them; all other statements wait for the lock,
-- so that a run is a sequence of whole transactions. A new row's id is fresh, which is what uuid4
-- is relied on for, and the clock of an acceptance is not behind the periods that the project has
-- already been charged in.
--
-- The hash function, the JWT library, Redis and starlette's JSONResponse are parameters, the first
-- three with the laws that they document; Tests.Servers instantiates them. A JWT has its times in
-- whole seconds. The libraries that lifespan and create_app set up are parameters that may raise.
-- The wait for a result recurses on fuel: four passes for each second of the timeout and one more,
-- which is enough as each pass sleeps for a quarter of a second. The substitution of tokens in a
-- log recurses on the length of the text, which is enough as no match is empty.
--
-- The routes of workers and of the administrator, but for the creation of a project, are steps
-- that write neither requests nor projects nor usage records. A chat request is in Routes up to
-- its commit; the wait that follows reads only. How FastAPI parses a request is not modelled: a
-- body is given as the record that pydantic makes of it, and its bounds are checked after the
-- dependencies of the route have run.
--
-- Not modelled: apps/gateway/alembic/env.py, which configures alembic; the constant answer of
-- routes/health.py; what the libraries do when they are set up (logging, the database engine,
-- Redis), and how pydantic and FastAPI read the environment and requests.
pub mod Base
pub mod Errors
pub mod Entities
pub mod Budget
pub mod Queue
pub mod Accounting
pub mod Idempotency
pub mod Chat
pub mod ApiKeys
pub mod RateLimit
pub mod WorkerTokens
pub mod Auth
pub mod WorkerRoutes
pub mod Admin
pub mod CircuitBreaker
pub mod WorkerHealth
pub mod Schemas
pub mod Middleware
pub mod Logging
pub mod Gateway
pub mod Config
pub mod Routes
pub mod Application
pub mod Migration
pub mod Bootstrap
mod Tests
