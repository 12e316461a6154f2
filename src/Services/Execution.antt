-- ===== src/Services/Execution.antt =====
-- app/services/execution_service.py.
use day_trade_intellegence.Prelude.{
  ◌||◌, ℕ, String, Bool, not, none, some, [], ◌∷◌, ◌==◌, if◌then◌else◌, fmt, is_empty,
}
use day_trade_intellegence.Core.Errors.{Error}
use day_trade_intellegence.Core.Action.{
  modify, ◌>>=◌, ◌>>◌, Action, pure, raise, try_except, try_finally,
}
use day_trade_intellegence.Core.Settings.{Settings}
use day_trade_intellegence.Domain.Trading.{SignalAction, ExecutionResult, action_value}
use day_trade_intellegence.External.{External}
use day_trade_intellegence.Services.Risk.{is_hold}
use day_trade_intellegence.Services.Portfolio.{release}

module _ {F W : Type 0} where
  -- The body of the `try`.
  unfoldable pub submit_order :
      Settings F → External F W → String → SignalAction → ℕ → Action W ExecutionResult
  submit_order settings ext symbol action quantity = do
    ext.ib.connect settings.ibkr_host settings.ibkr_port settings.ibkr_client_id
    order_id ← ext.ib.place_order symbol (action_value action) quantity
    pure (record {
      status = "submitted";
      broker_order_id = some order_id;
      message = "Order submitted to Interactive Brokers.";
    })

  unfoldable pub execute_order :
      Settings F → External F W → String → SignalAction → ℕ → Bool → Action W ExecutionResult
  unfolding submit_order release
  execute_order settings ext symbol action quantity dry_run =
      if is_hold action
      then pure (record {
        status = "skipped";
        broker_order_id = none;
        message = "Execution skipped because the strategy returned HOLD.";
      })
      else if dry_run
      then pure (record {
        status = "simulated";
        broker_order_id = none;
        message = "Dry run enabled. No live broker order was placed.";
      })
      else if not ext.ib.available
      then raise
          (Error.execution_error "ib_insync components are unavailable in the current environment.")
      else if is_empty settings.ibkr_host || settings.ibkr_port == 0
      then raise
          (Error.configuration_error "IBKR connection settings are required for live execution.")
      else modify ext.ib.create
        >> try_finally
            (try_except (submit_order settings ext symbol action quantity) (λ exc.
              raise
                (Error.execution_error (fmt ("Unable to submit order for " ∷ symbol ∷ "." ∷ [])))))
            (release ext.ib)
