-- ===== src/Dependencies.antt =====
-- app/core/dependencies.py: the services, each wired to the settings, the session and the programs
-- outside. A service is the record of its methods.
use day_trade_intellegence.Services.Query
use day_trade_intellegence.Bootstrap.{Migrations}
use day_trade_intellegence.Core.Action.{Action}
use day_trade_intellegence.Core.Float.{Float}
use day_trade_intellegence.Core.Settings.{Settings}
use day_trade_intellegence.Db.Factory.{SessionFactory}
use day_trade_intellegence.Domain.Auth.{TokenResponse, UserRead}
use day_trade_intellegence.Domain.Portfolio.{PortfolioSnapshot}
use day_trade_intellegence.Domain.Reconciliation.{ReconciliationResponse, ReconciliationRunRead}
use day_trade_intellegence.Domain.Trading.{
  ListResponse, PositionListResponse, StrategyRunRead, TradeAuditLogRead, TradeOrderRead,
  TradeSignalRequest, TradeSignalResponse,
}
use day_trade_intellegence.External.{External}
use day_trade_intellegence.Orchestrator.{process_signal}
use day_trade_intellegence.Prelude.{Bool, List, Option, String, ℕ}
use day_trade_intellegence.Repositories.Queries.{Sql}
use day_trade_intellegence.Security.Crypto.{Crypto}
use day_trade_intellegence.Security.Login.{get_user, login}
use day_trade_intellegence.Services.Operational.{RedisApi, SystemStatus, get_system_status}
use day_trade_intellegence.Services.Portfolio.{get_portfolio_snapshot}
use day_trade_intellegence.Services.Reconciliation.{reconcile_positions}

-- What one process runs with: its settings, the session of the call, the factory of sessions, the
-- task queue of Celery (`reconcile_positions_task.delay(…)`, and the identifier of the task), what
-- makes the schema, and the `str` of ASCII code points.
pub record Platform (F W : Type 0) : Type 1 where
  pub settings : Settings F
  pub ext : External F W
  pub sql : Sql F
  pub crypto : Crypto W
  pub sessions : SessionFactory W
  pub redis : RedisApi W
  pub delay : Bool → Action W String
  pub migrations : Migrations W
  pub text : List ℕ → String

pub record TradingOrchestrator (F W : Type 0) : Type 0 where
  pub process_signal_of : TradeSignalRequest → Action W (TradeSignalResponse F)

pub record TradingQueryService (F W : Type 0) : Type 0 where
  pub trade_orders : Option String → ℕ → ℕ → Action W (ListResponse (TradeOrderRead F))
  pub positions_of : Option String → Action W (PositionListResponse F)
  pub strategy_runs_of : Option String → ℕ → ℕ → Action W (ListResponse (StrategyRunRead F))
  pub audit_logs : Option String → ℕ → ℕ → Action W (ListResponse (TradeAuditLogRead F))
  pub reconciliation_runs_of : ℕ → ℕ → Action W (ListResponse (ReconciliationRunRead F))

pub record PortfolioService (F W : Type 0) : Type 0 where
  pub snapshot : Bool → Action W (PortfolioSnapshot F)

pub record ReconciliationService (F W : Type 0) : Type 0 where
  pub reconcile_now : Bool → Action W (ReconciliationResponse F)

pub record OperationalStatusService (W : Type 0) : Type 0 where
  pub status_now : Action W SystemStatus

pub record AuthService (W : Type 0) : Type 0 where
  pub login_of : String → String → Action W TokenResponse
  pub user_of : String → Action W (Option UserRead)

module _ {F W : Type 0} ⦃fl : Float F⦄ (platform : Platform F W) where
  unfoldable pub get_trading_orchestrator : TradingOrchestrator F W
  get_trading_orchestrator = record {
    process_signal_of = process_signal platform.settings platform.ext;
  }

  unfoldable pub get_query_service : TradingQueryService F W
  get_query_service = record {
    trade_orders = Query.list_trade_orders platform.sql platform.ext.db;
    positions_of = Query.list_positions platform.sql platform.ext.db;
    strategy_runs_of = Query.list_strategy_runs platform.sql platform.ext.db;
    audit_logs = Query.list_audit_logs platform.sql platform.ext.db;
    reconciliation_runs_of = Query.list_reconciliation_runs platform.sql platform.ext.db;
  }

  unfoldable pub get_portfolio_service : PortfolioService F W
  get_portfolio_service = record {
    snapshot = get_portfolio_snapshot platform.settings platform.ext;
  }

  unfoldable pub get_reconciliation_service : ReconciliationService F W
  get_reconciliation_service = record {
    reconcile_now = reconcile_positions platform.sql platform.settings platform.ext;
  }

  unfoldable pub get_operational_status_service : OperationalStatusService W
  get_operational_status_service = record {
    status_now = get_system_status platform.settings platform.sessions platform.redis;
  }

  unfoldable pub get_auth_service : AuthService W
  get_auth_service = record {
    login_of = login platform.crypto platform.settings platform.ext;
    user_of = get_user platform.crypto platform.settings platform.ext;
  }
