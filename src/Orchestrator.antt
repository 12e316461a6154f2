-- ===== src/Orchestrator.antt =====
-- app/services/orchestrator.py: the trading workflow.
pub mod Frames
pub mod Approval
pub mod Sources
pub mod Warrant
pub mod Executed
pub mod Answers
pub mod Safety
pub mod Writes
pub mod Trail
pub mod Logs
use day_trade_intellegence.Prelude.{
  String, Bool, not, Option, none, some, List, str_eq, if◌then◌else◌, last?,
}
use day_trade_intellegence.Core.Errors.{Error, class_name, message}
use day_trade_intellegence.Core.Action.{
  Result, ok, err, Action, pure, raise, lift, try_except, ◌>>=◌, ◌>>◌,
}
use day_trade_intellegence.Core.Float.{Float}
use day_trade_intellegence.Core.Settings.{Settings}
use day_trade_intellegence.Domain.Json.{Json, Metadata}
use day_trade_intellegence.Domain.Trading.{
  TradeLifecycleStatus, OrderStatus, PositionSide, TradeSignalRequest, MarketBar, StrategyDecision,
  ExecutionResult, TradeAuditRecord, StrategyRunRecord, TradeOrderRecord, PositionRecord,
  TradeSignalResponse, action_value,
}
use day_trade_intellegence.Domain.Portfolio.{PortfolioSnapshot}
use day_trade_intellegence.External.{External}
use day_trade_intellegence.Repositories.{
  create_audit_log, create_strategy_run, create_trade_order, upsert_position,
}
use day_trade_intellegence.Services.Strategy.{evaluate_moving_average_crossover}
use day_trade_intellegence.Services.Risk.{validate_trade}
use day_trade_intellegence.Services.Market.{get_recent_bars}
use day_trade_intellegence.Services.Portfolio.{get_portfolio_snapshot}
use day_trade_intellegence.Services.Execution.{execute_order}

-- `try: …`, `except Exception: logger.exception(…)`
unfoldable pub swallow : {W : Type 0} → Action W (Unit {0}) → Action W (Unit {0})
swallow m = try_except m (λ exc. pure tt)

-- A text or `None`, as metadata.
unfoldable pub optional_text : {F : Type 0} → Option String → Json F
optional_text none = Json.null
optional_text (some s) = Json.str s

-- What is known once the risk policy has approved a trade.
pub record Approved (F : Type 0) : Type 0 where
  pub portfolio_snapshot : PortfolioSnapshot F
  pub decision : StrategyDecision F
  pub latest_price : F
  pub risk_approved : Bool

unfoldable pub order_status : ExecutionResult → OrderStatus
order_status result =
    if str_eq result.status "simulated" then OrderStatus.simulated else OrderStatus.submitted

-- The records that the steps of `process_signal` write.
module _ {F : Type 0} where
  unfoldable pub audit : String → TradeLifecycleStatus → String → Metadata F → TradeAuditRecord F
  audit symbol status detail metadata = record {
    symbol = symbol;
    status = status;
    detail = detail;
    metadata = metadata;
  }

  unfoldable pub received_event : TradeSignalRequest → TradeAuditRecord F
  unfolding audit
  received_event request =
      audit request.symbol TradeLifecycleStatus.received
        "Trade request received by orchestration layer."
        (Metadata.entry "dry_run" (Json.bool request.dry_run)
          (Metadata.entry "quantity" (Json.int request.quantity) Metadata.empty))

  unfoldable pub evaluated_event : TradeSignalRequest → StrategyDecision F → TradeAuditRecord F
  unfolding audit action_value
  evaluated_event request decision =
      audit request.symbol TradeLifecycleStatus.strategy_evaluated "Strategy evaluation completed."
        (Metadata.entry "action" (Json.str (action_value decision.action))
          (Metadata.entry "confidence" (Json.float decision.confidence) Metadata.empty))

  unfoldable pub approved_event : TradeSignalRequest → Approved F → TradeAuditRecord F
  unfolding audit
  approved_event request a =
      audit request.symbol TradeLifecycleStatus.risk_approved "Trade passed risk validation." (
        Metadata.entry "latest_price" (Json.float a.latest_price) (
          Metadata.entry "risk_approved" (Json.bool a.risk_approved) (
            Metadata.entry "account_equity" (Json.float a.portfolio_snapshot.net_liquidation) (
              Metadata.entry "drawdown_pct" (Json.float a.portfolio_snapshot.drawdown_pct)
                Metadata.empty))))

  unfoldable pub executed_event : TradeSignalRequest → ExecutionResult → TradeAuditRecord F
  unfolding audit optional_text
  executed_event request result =
      audit request.symbol TradeLifecycleStatus.executed "Execution step completed." (
        Metadata.entry "execution_status" (Json.str result.status)
          (Metadata.entry "broker_order_id" (optional_text result.broker_order_id) Metadata.empty))

  unfoldable pub failed_event : TradeSignalRequest → Error → TradeAuditRecord F
  unfolding audit class_name message
  failed_event request exc =
      audit request.symbol TradeLifecycleStatus.failed "Trade workflow failed." (
        Metadata.entry "error_type" (Json.str (class_name exc))
          (Metadata.entry "message" (Json.str (message exc)) Metadata.empty))

  unfoldable pub strategy_run_of : TradeSignalRequest → StrategyDecision F → StrategyRunRecord F
  strategy_run_of request decision = record {
    symbol = request.symbol;
    timeframe = request.timeframe;
    short_window = request.short_window;
    long_window = request.long_window;
    action = decision.action;
    confidence = decision.confidence;
    reason = decision.reason;
    metadata = decision.metadata;
  }

  unfoldable pub trade_order_of :
      TradeSignalRequest → Approved F → ExecutionResult → TradeOrderRecord F
  unfolding order_status
  trade_order_of request a result = record {
    symbol = request.symbol;
    action = a.decision.action;
    quantity = request.quantity;
    status = order_status result;
    requested_price = a.latest_price;
    broker_order_id = result.broker_order_id;
    dry_run = request.dry_run;
    metadata =
        Metadata.entry "execution_message" (Json.str result.message)
          (Metadata.entry "account_source" (Json.str a.portfolio_snapshot.source) Metadata.empty);
  }

  unfoldable pub position_of : TradeSignalRequest → Approved F → PositionRecord F
  unfolding action_value
  position_of request a = record {
    symbol = request.symbol;
    side =
        if str_eq (action_value a.decision.action) "BUY"
        then PositionSide.long
        else PositionSide.short;
    quantity = request.quantity;
    average_price = a.latest_price;
    metadata =
        Metadata.entry "source" (Json.str "trading_orchestrator")
          (Metadata.entry "dry_run" (Json.bool request.dry_run) Metadata.empty);
  }

  -- `bars[-1].close`
  unfoldable pub latest_close : List (MarketBar F) → Result F
  latest_close bars = elim (last? bars) [
    | none ↦ err (Error.other "IndexError" "list index out of range")
    | some bar ↦ ok bar.close
  ]

module _ {F W : Type 0} ⦃fl : Float F⦄ (settings : Settings F) (ext : External F W) where
  unfoldable pub record_audit_event : TradeAuditRecord F → Action W (Unit {0})
  unfolding swallow
  record_audit_event r = swallow (create_audit_log ext.db r)

  unfoldable pub record_strategy_run : StrategyRunRecord F → Action W (Unit {0})
  unfolding swallow
  record_strategy_run r = swallow (create_strategy_run ext.db r)

  unfoldable pub record_trade_order : TradeOrderRecord F → Action W (Unit {0})
  unfolding swallow
  record_trade_order r = swallow (create_trade_order ext.db r)

  unfoldable pub save_position : PositionRecord F → Action W (Unit {0})
  unfolding swallow
  save_position r = swallow (upsert_position ext.db r)

  -- `process_signal` up to the audit event that the risk policy approved the trade.
  unfoldable pub approve : TradeSignalRequest → Action W (Approved F)
  approve request = do
    portfolio_snapshot ← get_portfolio_snapshot settings ext (not request.dry_run)
    bars ← get_recent_bars settings ext request.symbol request.timeframe request.long_window
    decision ← lift (
        evaluate_moving_average_crossover request.symbol bars request.short_window
          request.long_window)
    record_strategy_run (strategy_run_of request decision)
    record_audit_event (evaluated_event request decision)
    latest_price ← lift (latest_close bars)
    risk_approved ← lift (
        validate_trade settings request.symbol decision request.quantity latest_price
          portfolio_snapshot.net_liquidation portfolio_snapshot.drawdown_pct)
    let a : Approved F = record {
      portfolio_snapshot = portfolio_snapshot;
      decision = decision;
      latest_price = latest_price;
      risk_approved = risk_approved;
    }
    record_audit_event (approved_event request a)
    pure a

  -- The rest of it, to the end of the `try`.
  unfoldable pub settle : TradeSignalRequest → Approved F → Action W (TradeSignalResponse F)
  settle request a = do
    execution_result ←
        execute_order settings ext request.symbol a.decision.action request.quantity request.dry_run
    record_trade_order (trade_order_of request a execution_result)
    save_position (position_of request a)
    record_audit_event (executed_event request execution_result)
    pure (record {
      symbol = request.symbol;
      decision = a.decision;
      risk_approved = a.risk_approved;
      execution = execution_result;
    })

  unfoldable pub report_failure : TradeSignalRequest → Error → Action W (TradeSignalResponse F)
  report_failure request exc = record_audit_event (failed_event request exc) >> raise exc

  unfoldable pub process_signal : TradeSignalRequest → Action W (TradeSignalResponse F)
  unfolding approve settle report_failure record_audit_event
  process_signal request =
      record_audit_event (received_event request)
      >> try_except (approve request >>= settle request) (report_failure request)
