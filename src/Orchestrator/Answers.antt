-- ===== src/Orchestrator/Answers.antt =====
-- What `process_signal` returns or raises.
use mathlib.Core.Path.{subst}
use day_trade_intellegence.Core.Action.{err}
use day_trade_intellegence.Core.Action.Ends.{
  Anything, Ends, Ends-bind, Ends-pure, Ends-raise, Ends-try_except, Ends-weaken, Outcome,
}
use day_trade_intellegence.Core.Errors.{
  Error, class_name, handle_trading_error, is_trading_platform_error, message, respond,
}
use day_trade_intellegence.Core.Float.{Float, IsOrdered}
use day_trade_intellegence.Core.Settings.{Settings}
use day_trade_intellegence.Domain.Trading.{SignalAction, TradeSignalRequest, TradeSignalResponse}
use day_trade_intellegence.External.{External}
use day_trade_intellegence.Orchestrator.{
  Approved, process_signal, record_audit_event, record_trade_order, report_failure, save_position,
  settle,
}
use day_trade_intellegence.Orchestrator.Approval.{IsApproved, IsDomain, approve-Ends, swallow-Ends}
use day_trade_intellegence.Prelude.{inl, inr, refl, true, ◌≡◌, ◌≢◌, ◌⊎◌}
use day_trade_intellegence.Services.Endings.{IsExecuted, execute_order-Ends}

-- The answer is for the request's symbol; the trade was approved and is no HOLD; the status of the
-- execution tells a dry run from an order that was submitted.
pub record IsAnswer {F : Type 0} (request : TradeSignalRequest) (response : TradeSignalResponse F)
    : Type 0 where
  pub symbol : response.symbol ≡ request.symbol
  pub approved : response.risk_approved ≡ true
  pub tradable : response.decision.action ≢ SignalAction.hold
  pub executed : IsExecuted request.dry_run response.execution

module _ {F W : Type 0} ⦃fl : Float F⦄ (laws : IsOrdered fl) (settings : Settings F)
    (ext : External F W) (request : TradeSignalRequest) where
  settle-Ends :
      (a : Approved F)
      → IsApproved settings request a
      → Ends (IsAnswer request) IsDomain (settle settings ext request a)
  unfolding settle record_trade_order save_position record_audit_event
  settle-Ends a approved =
      Ends-bind _ _ _
        (Ends-weaken IsDomain _
          (execute_order-Ends settings ext request.symbol a.decision.action request.quantity
            request.dry_run approved.tradable)
          (λ e h. inl h))
        λ result executed. Ends-bind Anything _ _ (swallow-Ends _) λ _ _.
          Ends-bind Anything _ _ (swallow-Ends _) λ _ _.
            Ends-bind Anything _ _ (swallow-Ends _) λ _ _. Ends-pure _ (record {
              symbol = refl;
              approved = approved.flagged;
              tradable = approved.tradable;
              executed = executed;
            })

  report_failure-Ends :
      (e : Error)
      → IsDomain e
      → Ends (IsAnswer request) IsDomain (report_failure settings ext request e)
  unfolding report_failure record_audit_event
  report_failure-Ends e h = Ends-bind Anything _ _ (swallow-Ends _) λ _ _. Ends-raise e h

  -- In any world, and whatever the broker, the market and the database do, `process_signal` returns
  -- an approved answer for the request, or raises a domain exception or pydantic's refusal of a
  -- confidence: no exception of the database, no division by zero, no index out of range leaves it. The
  -- quantity is one that a float can hold.
  pub process_signal-Ends : Ends (IsAnswer request) IsDomain (process_signal settings ext request)
  unfolding process_signal record_audit_event
  process_signal-Ends = Ends-bind Anything _ _ (swallow-Ends _) λ _ _.
      Ends-try_except IsDomain _ _
        (Ends-bind _ _ _ (approve-Ends laws settings ext request) settle-Ends) report_failure-Ends

-- The status that the API answers with for an exception of `process_signal`.
IsDomain-respond :
    (e : Error)
    → IsDomain e
    → ((respond e).status_code ≡ 400) × ((respond e).detail ≡ message e)
      ⊎ (class_name e ≡ "ValidationError")
unfolding respond is_trading_platform_error handle_trading_error
IsDomain-respond (Error.http_exception s m) (inl h) = cc
IsDomain-respond (Error.other c m) (inl h) = cc
IsDomain-respond (Error.configuration_error m) h = inl (refl, refl)
IsDomain-respond (Error.market_data_error m) h = inl (refl, refl)
IsDomain-respond (Error.strategy_error m) h = inl (refl, refl)
IsDomain-respond (Error.risk_violation_error m) h = inl (refl, refl)
IsDomain-respond (Error.execution_error m) h = inl (refl, refl)
IsDomain-respond e (inr v) = inr v

module _ {F W : Type 0} ⦃fl : Float F⦄ (laws : IsOrdered fl) (settings : Settings F)
    (ext : External F W) where
  -- Whatever makes `process_signal` raise, the API answers 400 with the message of the exception,
  -- unless pydantic refuses the confidence. The quantity is one that a float can hold.
  pub process_signal-respond :
      (request : TradeSignalRequest) (w : W) (e : Error)
      → (process_signal settings ext request w).0 ≡ err e
      → (((respond e).status_code ≡ 400) × ((respond e).detail ≡ message e))
        ⊎ (class_name e ≡ "ValidationError")
  process_signal-respond request w e h = IsDomain-respond e (
      subst (Outcome (IsAnswer request) IsDomain) h
        ((process_signal-Ends laws settings ext request).at w))
