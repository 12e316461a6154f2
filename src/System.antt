-- ===== src/System.antt =====
-- The whole program as a process: app/main.py, app/workers, and their steps.
pub mod Consistent
pub mod Stores
pub mod Start
pub mod Invariant
pub mod FirstStart
use day_trade_intellegence.Api.Application.{application}
use day_trade_intellegence.Api.Serve.{Request}
use day_trade_intellegence.Bootstrap.{initialize_database_schema, seed_demo_data}
use day_trade_intellegence.Core.Action.{Action, pure, raise, try_except, ◌>>=◌, ◌>>◌}
use day_trade_intellegence.Core.Float.{Float}
use day_trade_intellegence.Db.Factory.{with_session}
use day_trade_intellegence.Dependencies.{Platform, get_reconciliation_service}
use day_trade_intellegence.Domain.Reconciliation.{ReconciliationResponse}
use day_trade_intellegence.Prelude.{Bool, Option, String, ◌≡◌}

module _ {F W : Type 0} ⦃fl : Float F⦄ (platform : Platform F W) where
  -- `application_lifespan` of app/main.py, up to its `yield`
  unfoldable pub application_lifespan : Action W (Unit {0})
  unfolding initialize_database_schema seed_demo_data
  application_lifespan = do
    bootstrap_mode ← initialize_database_schema platform.settings platform.migrations
    seeded ←
        with_session platform.sessions
          (seed_demo_data platform.crypto platform.text platform.settings platform.ext.db)
    pure tt

  -- `reconcile_positions_task` of app/workers/reconciliation_tasks.py; Celery gets the response as JSON.
  unfoldable pub reconcile_positions_task : Bool → Action W (ReconciliationResponse F)
  unfolding get_reconciliation_service
  reconcile_positions_task use_live_data = with_session platform.sessions (
      try_except ((get_reconciliation_service platform).reconcile_now use_live_data)
        (λ exc. raise exc))

  -- A call of the API, a start of the process, a task of the worker, or something outside that
  -- leaves the database and the sessions alone.
  pub data Step : W → W → Type 0 where
    call :
        (header : Option String) (fresh : String) (request : Request) (w : W)
        → Step w (application platform header fresh request w).1
    start : (w : W) → Step w (application_lifespan w).1
    task : (use_live_data : Bool) (w : W) → Step w (reconcile_positions_task use_live_data w).1
    elapse :
        (w v : W)
        → platform.ext.db.tables v ≡ platform.ext.db.tables w
        → platform.sessions.opened v ≡ platform.sessions.opened w
        → Step w v

  pub data Reach (first : W) : W → Type 0 where
    here : Reach first first
    next : {w v : W} → Reach first w → Step w v → Reach first v
