-- ===== src/Api/Routes.antt =====
-- app/api/routes: one function per endpoint.
pub mod Current
use day_trade_intellegence.Api.{
  Credentials, Listing, admin_roles, all_roles, checked_limit, checked_offset, checked_signal,
  operator_roles, protected, value_or,
}
use day_trade_intellegence.Core.Action.{Action, lift, pure, ◌>>=◌, ◌>>◌}
use day_trade_intellegence.Core.Float.{Float}
use day_trade_intellegence.Db.Factory.{with_session}
use day_trade_intellegence.Dependencies.{
  Platform, get_auth_service, get_operational_status_service, get_portfolio_service,
  get_query_service, get_reconciliation_service, get_trading_orchestrator,
}
use day_trade_intellegence.Domain.Auth.{TokenResponse}
use day_trade_intellegence.Domain.Portfolio.{PortfolioSnapshot}
use day_trade_intellegence.Domain.Reconciliation.{ReconciliationResponse, ReconciliationRunRead}
use day_trade_intellegence.Domain.Trading.{
  ListResponse, PositionListResponse, StrategyRunRead, TradeAuditLogRead, TradeOrderRead,
  TradeSignalRequest, TradeSignalResponse,
}
use day_trade_intellegence.Prelude.{Bool, Option, String, false, true, ℕ}
use day_trade_intellegence.Services.Operational.{SystemStatus}

pub record ServiceRoot : Type 0 where
  pub name : String
  pub environment : String
  pub docs : String
  pub api_prefix : String

module _ {F W : Type 0} ⦃fl : Float F⦄ (platform : Platform F W) where
  -- app/api/routes/trading.py
  unfoldable pub generate_and_execute_signal :
      Credentials → TradeSignalRequest → Action W (TradeSignalResponse F)
  unfolding checked_signal get_trading_orchestrator
  generate_and_execute_signal credentials request = protected platform all_roles credentials (do
    checked ← lift (checked_signal request)
    (get_trading_orchestrator platform).process_signal_of checked)

  unfoldable pub list_trade_orders :
      Credentials → Listing → Action W (ListResponse (TradeOrderRead F))
  unfolding checked_limit checked_offset get_query_service
  list_trade_orders credentials listing = protected platform operator_roles credentials (do
    limit ← lift (checked_limit listing.limit)
    (get_query_service platform).trade_orders listing.symbol limit (checked_offset listing.offset))

  unfoldable pub list_positions : Credentials → Option String → Action W (PositionListResponse F)
  unfolding get_query_service
  list_positions credentials symbol =
      protected platform operator_roles credentials
        ((get_query_service platform).positions_of symbol)

  unfoldable pub list_strategy_runs :
      Credentials → Listing → Action W (ListResponse (StrategyRunRead F))
  unfolding checked_limit checked_offset get_query_service
  list_strategy_runs credentials listing = protected platform operator_roles credentials (do
    limit ← lift (checked_limit listing.limit)
    (get_query_service platform).strategy_runs_of listing.symbol limit
        (checked_offset listing.offset))

  unfoldable pub list_audit_logs :
      Credentials → Listing → Action W (ListResponse (TradeAuditLogRead F))
  unfolding checked_limit checked_offset get_query_service
  list_audit_logs credentials listing = protected platform operator_roles credentials (do
    limit ← lift (checked_limit listing.limit)
    (get_query_service platform).audit_logs listing.symbol limit (checked_offset listing.offset))

  -- app/api/routes/portfolio.py; `live` is False by default
  unfoldable pub get_portfolio_summary : Credentials → Option Bool → Action W (PortfolioSnapshot F)
  unfolding get_portfolio_service
  get_portfolio_summary credentials live =
      protected platform operator_roles credentials
        ((get_portfolio_service platform).snapshot (value_or false live))

  -- app/api/routes/reconciliation.py; `live` is True by default
  unfoldable pub run_reconciliation :
      Credentials → Option Bool → Action W (ReconciliationResponse F)
  unfolding get_reconciliation_service
  run_reconciliation credentials live =
      protected platform operator_roles credentials
        ((get_reconciliation_service platform).reconcile_now (value_or true live))

  -- the identifier of the task, beside `"queued": True`
  unfoldable pub enqueue_reconciliation : Credentials → Option Bool → Action W (String × Bool)
  enqueue_reconciliation credentials live =
      protected platform operator_roles credentials
        (do task ← platform.delay (value_or true live); pure (task, true))

  unfoldable pub list_reconciliation_runs :
      Credentials → Option ℕ → Option ℕ → Action W (ListResponse (ReconciliationRunRead F))
  unfolding checked_limit checked_offset get_query_service
  list_reconciliation_runs credentials limit offset =
      protected platform operator_roles credentials (do
        checked ← lift (checked_limit limit)
        (get_query_service platform).reconciliation_runs_of checked (checked_offset offset))

  -- app/api/routes/admin.py
  unfoldable pub admin_system_status : Credentials → Action W SystemStatus
  unfolding get_operational_status_service
  admin_system_status credentials =
      protected platform admin_roles credentials
        (get_operational_status_service platform).status_now

  -- app/api/routes/health.py
  unfoldable pub readiness_check : Action W SystemStatus
  unfolding get_operational_status_service
  readiness_check = (get_operational_status_service platform).status_now

  -- the answer of `/`
  unfoldable pub service_root : Action W ServiceRoot
  unfolding pure
  service_root = pure (record {
    name = platform.settings.app_name;
    environment = platform.settings.environment;
    docs = "/docs";
    api_prefix = platform.settings.api_prefix;
  })

  -- `status` and `environment`
  unfoldable pub health_check : Action W (String × String)
  health_check = pure ("ok", platform.settings.environment)

  -- app/api/routes/auth.py
  unfoldable pub login_route : String → String → Action W TokenResponse
  unfolding get_auth_service
  login_route username password =
      with_session platform.sessions ((get_auth_service platform).login_of username password)
