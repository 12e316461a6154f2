-- ===== src/Api/Serve.antt =====
-- app/api/router.py: the requests that the routers take, each sent to its endpoint.
use day_trade_intellegence.Api.Routes
use day_trade_intellegence.Api.{Credentials, Listing}
use day_trade_intellegence.Api.Routes.{ServiceRoot}
use day_trade_intellegence.Api.Routes.Current.{get_current_user}
use day_trade_intellegence.Core.Action.{Action, pure, ◌>>=◌}
use day_trade_intellegence.Core.Float.{Float}
use day_trade_intellegence.Dependencies.{Platform}
use day_trade_intellegence.Domain.Auth.{TokenResponse, UserRead}
use day_trade_intellegence.Domain.Portfolio.{PortfolioSnapshot}
use day_trade_intellegence.Domain.Reconciliation.{ReconciliationResponse, ReconciliationRunRead}
use day_trade_intellegence.Domain.Trading.{
  ListResponse, PositionListResponse, StrategyRunRead, TradeAuditLogRead, TradeOrderRead,
  TradeSignalRequest, TradeSignalResponse,
}
use day_trade_intellegence.Prelude.{Bool, List, Option, String, ℕ}
use day_trade_intellegence.Services.Operational.{SystemStatus}

pub data Request : Type 0 where
  root health readiness : Request
  login_user : String → String → Request
  current_user : Option (List ℕ) → Request
  signal : Credentials → TradeSignalRequest → Request
  trade_orders positions_of strategy_runs_of audit_logs : Credentials → Listing → Request
  portfolio_summary reconcile_book enqueue : Credentials → Option Bool → Request
  reconciliation_runs_of : Credentials → Listing → Request
  system_status_of : Credentials → Request

pub data Response (F : Type 0) : Type 0 where
  root : ServiceRoot → Response F
  health : String → String → Response F
  status : SystemStatus → Response F
  token : TokenResponse → Response F
  user : UserRead → Response F
  signal : TradeSignalResponse F → Response F
  trade_orders : ListResponse (TradeOrderRead F) → Response F
  positions_of : PositionListResponse F → Response F
  strategy_runs_of : ListResponse (StrategyRunRead F) → Response F
  audit_logs : ListResponse (TradeAuditLogRead F) → Response F
  portfolio : PortfolioSnapshot F → Response F
  reconciliation : ReconciliationResponse F → Response F
  enqueued : String → Bool → Response F
  reconciliation_runs_of : ListResponse (ReconciliationRunRead F) → Response F

module _ {F W : Type 0} ⦃fl : Float F⦄ (platform : Platform F W) where
  -- The positions take no `limit` and the runs no `symbol`: such a parameter is ignored.
  unfoldable pub serve : Request → Action W (Response F)
  serve Request.root = do r ← Routes.service_root platform; pure (Response.root r)
  serve Request.health = do r ← Routes.health_check platform; pure (Response.health r.0 r.1)
  serve Request.readiness = do r ← Routes.readiness_check platform; pure (Response.status r)
  serve (Request.login_user username password) = do
    r ← Routes.login_route platform username password
    pure (Response.token r)
  serve (Request.current_user authorization) = do
    r ← get_current_user platform authorization
    pure (Response.user r)
  serve (Request.signal c request) = do
    r ← Routes.generate_and_execute_signal platform c request
    pure (Response.signal r)
  serve (Request.trade_orders c listing) = do
    r ← Routes.list_trade_orders platform c listing
    pure (Response.trade_orders r)
  serve (Request.positions_of c listing) = do
    r ← Routes.list_positions platform c listing.symbol
    pure (Response.positions_of r)
  serve (Request.strategy_runs_of c listing) = do
    r ← Routes.list_strategy_runs platform c listing
    pure (Response.strategy_runs_of r)
  serve (Request.audit_logs c listing) = do
    r ← Routes.list_audit_logs platform c listing
    pure (Response.audit_logs r)
  serve (Request.portfolio_summary c live) = do
    r ← Routes.get_portfolio_summary platform c live
    pure (Response.portfolio r)
  serve (Request.reconcile_book c live) = do
    r ← Routes.run_reconciliation platform c live
    pure (Response.reconciliation r)
  serve (Request.enqueue c live) = do
    r ← Routes.enqueue_reconciliation platform c live
    pure (Response.enqueued r.0 r.1)
  serve (Request.reconciliation_runs_of c listing) = do
    r ← Routes.list_reconciliation_runs platform c listing.limit listing.offset
    pure (Response.reconciliation_runs_of r)
  serve (Request.system_status_of c) = do
    r ← Routes.admin_system_status platform c
    pure (Response.status r)
