-- ===== src/Lib.antt =====
-- A model of the Day Trade Intelligence platform, a FastAPI service that evaluates a trading strategy,
-- checks a risk policy, sends orders to Interactive Brokers and keeps its records in a database.
--
-- The parts, with the code that each file is about (paths from the root of the repository):
--   Core/Errors       app/core/errors.py: the exceptions and the responses of their handlers
--   Core/Settings     app/core/settings.py: the settings, and in Environment how they are loaded
--   Core/Action       calls that may raise and that act on a world W; the state of the world comes back
--                     beside an exception too; Core/Action/Triple and Core/Action/Ends have the rules
--                     of a program logic for them
--   Core/Float        Python's float as an interface; Core/Float/Fixed is a concrete one
--   Domain            app/domain: requests, records, read models, JSON metadata
--   Db/Models         app/db/models.py: a row of each table, and the tables
--   Db/Session        the SQLAlchemy session of app/db/session.py, an interface with its laws
--   Db/Factory        SessionLocal of app/db/session.py, an interface, and the session of one call
--   External          ib_insync, alpaca-py and the clock, interfaces with their laws
--   Services          app/services: Strategy (strategy_engine.py), Risk (risk_manager.py), Market
--                     (market_data_service.py), Portfolio (portfolio_service.py), Execution
--                     (execution_service.py), Query (query_service.py), Reconciliation
--                     (reconciliation_service.py)
--   Repositories      app/repositories: one function per method; the list methods are in Queries
--   Orchestrator      app/services/orchestrator.py: process_signal; Sources and Warrant say which account
--                     and which bars an approval rests on
--   Security          app/security: Base64, Tokens and Passwords (tokens.py), Access (auth.py); Login is
--                     app/services/auth_service.py; Crypto has what is taken from hmac, hashlib,
--                     secrets and json
--   Bootstrap         app/bootstrap.py: the schema strategy, the local users and the demo data
--   Services/Operational  app/services/operational_service.py: the readiness probes
--   Dependencies      app/core/dependencies.py: the services that a call gets; Platform is all that
--                     one process runs with
--   Api               app/api: Routes has one function per endpoint of app/api/routes, Serve is
--                     app/api/router.py, Application is app/middleware/request_context.py and the
--                     stack of app/main.py
--   System            app/main.py and app/workers/reconciliation_tasks.py: the start, the task of the
--                     worker, and the steps of the whole process
--   Migrations        alembic/versions; Schema has the tables that app/db/models.py declares, Effects
--                     what the operations of Alembic do
--   Scripts           scripts/wait_for_services.py: what a container does before the start
--   Tests             concrete runs of the model
--
-- How they interact. process_signal of the orchestrator reads an account snapshot (Portfolio) and bars
-- (Market), decides (Strategy), checks the policy (Risk), executes (Execution) and writes a trail of
-- rows after each step (Repositories), where a write that fails is ignored. The model keeps this order:
-- `approve` is process_signal up to the approval of the policy, `settle` the rest of its `try`, and
-- `report_failure` its `except`. The reconciliation reads a snapshot and the stored positions, compares
-- them and stores a run.
--
-- A call of the API goes through `application` (the handler of Exception), `dispatch` (the middleware),
-- `call_next` (the other handlers) and `serve` (the routes); a route that asks for a role opens a
-- session, checks the caller (Security/Access), checks its parameters and calls a service. `Step` has
-- such a call, a start or a task of the worker as one step of the process, and `Reach` the worlds after
-- any sequence of them.
--
-- The world. A value of W is all that is outside the program: the database, the broker, the market and
-- the clock. Every call takes a world and returns a result with the world after it, so that what a call
-- did before it raised is not lost. An `async` method is the call that it awaits: a request runs alone.
--
-- Numbers. The numbers of a validated request are naturals, since pydantic refuses those below
-- the bounds; Python's integers do not overflow. An integer that meets a float is taken to be one
-- that a double can hold: Python raises an OverflowError for more than 308 digits. Of floats only
-- the laws of `IsOrdered` are assumed, which hold for IEEE 754 doubles with infinities and NaN;
-- no law speaks of exact arithmetic. A division by a float zero is written out as the exception
-- that it raises.
--
-- Order. `ORDER BY created_at` leaves rows of the same time in any order, so `Sql` sorts the rows of
-- one query: its order may be another for another limit or offset, and nothing is said of two pages.
--
-- Fuel is in `decimal`, where it is the number itself, which has fewer digits, and in the loop that waits
-- for a service (`wait_loop`): a round that fails sleeps two seconds, so that half the timeout and two
-- more rounds reach the deadline. The clock of that loop counts microseconds.
--
-- Third-party code is a parameter: a record of operations (`Session`, `Broker`, `MarketApi`,
-- `Runtime`, `Sql`, `Crypto`, `Migrations`, `SessionFactory`, `RedisApi`, `Ddl`, `Host`,
-- `Environment`) with the laws that the theorems need as hypotheses (`IsTransactional`,
-- `IsReliable`, `IsSeparated`, `IsCrypto`, `IsContained`, `IsNeutral`, `IsOrderless`, `IsCounted`,
-- `IsCreated`, `IsDdl`, `IsClock`). The tests give worlds in memory in which they hold.
--
-- Not modelled: log lines and app/core/logging.py, the static pages of app/ui, the engine that
-- app/db/session.py builds, the configuration of Celery in app/workers/celery_app.py, alembic/env.py,
-- the shell scripts, and how FastAPI reads a request and pydantic a text of the environment: they are
-- input and output, or configuration of a library.
pub mod Prelude
pub mod Core
pub mod Domain
pub mod Db
pub mod External
pub mod Services
pub mod Repositories
pub mod Orchestrator
pub mod Security
pub mod Bootstrap
pub mod Dependencies
pub mod Api
pub mod System
pub mod Migrations
pub mod Scripts
pub mod Tests
