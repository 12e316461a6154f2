-- ===== src/Orchestrator/Approval.antt =====
-- What is known of a trade that `approve` lets through, and of the exceptions that it raises.
use day_trade_intellegence.Core.Action.{Action, ok}
use day_trade_intellegence.Core.Action.Ends.{
  Anything, Ends, Ends-any, Ends-bind, Ends-lift, Ends-pure, Ends-try_except, Ends-weaken, Outcome,
  Outcome-ok, Outcome-weaken,
}
use day_trade_intellegence.Core.Errors.{Error, class_name, is_trading_platform_error}
use day_trade_intellegence.Core.Float.{Float, IsOrdered}
use day_trade_intellegence.Core.Settings.{Settings}
use day_trade_intellegence.Domain.Trading.{MarketBar, SignalAction, TradeSignalRequest}
use day_trade_intellegence.External.{External}
use day_trade_intellegence.Orchestrator.{
  Approved, approve, latest_close, record_audit_event, record_strategy_run, swallow,
}
use day_trade_intellegence.Prelude.{
  List, arith, false, inl, inr, last?, last_of_pos, length, refl, some, true, ◌<◌, ◌≡◌, ◌≢◌, ◌⊎◌,
}
use day_trade_intellegence.Services.Endings.{
  HasDrawdown, IsPlatform, get_portfolio_snapshot-Ends, get_recent_bars-Ends,
}
use day_trade_intellegence.Services.Risk.Policy.{
  IsViolation, IsWithinCapital, validate_trade-Outcome,
}
use day_trade_intellegence.Services.Strategy.{evaluate_moving_average_crossover}
use day_trade_intellegence.Services.Strategy.Crossover.{IsCrossover, IsEngineError, evaluate_sound}

-- A domain exception, for which the API answers 400, or pydantic's refusal of a confidence that is
-- not from 0 to 1.
abbrev pub IsDomain : Error → Type 0
IsDomain e = (IsPlatform e) ⊎ (class_name e ≡ "ValidationError")

module _ {F : Type 0} ⦃fl : Float F⦄ (settings : Settings F) (request : TradeSignalRequest) where
  -- The decision is the crossover of some bars that end at the latest price, and no HOLD; neither the
  -- capital at risk nor the drawdown is above its limit; the drawdown of a live account is that of
  -- its equity below the paper equity.
  pub record IsApproved (a : Approved F) : Type 0 where
    pub bars : List (MarketBar F)
    pub decided : IsCrossover bars request.short_window request.long_window a.decision
    pub latest : (bar : MarketBar F) × (last? bars ≡ some bar) × (a.latest_price ≡ bar.close)
    pub tradable : a.decision.action ≢ SignalAction.hold
    pub at_risk :
        IsWithinCapital settings request.quantity a.latest_price
          a.portfolio_snapshot.net_liquidation
    pub within_drawdown : fl.lt settings.max_drawdown_pct a.portfolio_snapshot.drawdown_pct ≡ false
    pub account : request.dry_run ≡ false → HasDrawdown settings a.portfolio_snapshot
    pub flagged : a.risk_approved ≡ true

  -- The engine's own exceptions are a `StrategyError` and pydantic's.
  engine-IsDomain : (e : Error) → IsEngineError e → IsDomain e
  unfolding is_trading_platform_error
  engine-IsDomain e (inl (m, p)) = inl (rw p refl)
  engine-IsDomain e (inr v) = inr v

  violation-IsDomain : (e : Error) → IsViolation e → IsDomain e
  unfolding is_trading_platform_error
  violation-IsDomain e (m, p) = inl (rw p refl)

  pub latest_close_sound :
      (bars : List (MarketBar F))
      → 0 < length bars
      → Outcome
          (λ price. (bar : MarketBar F) × (last? bars ≡ some bar) × (price ≡ bar.close))
          IsDomain
          (latest_close bars)
  unfolding latest_close
  latest_close_sound bars h =
      let (bar, e) = last_of_pos bars h in
      let found : latest_close bars ≡ ok bar.close = rw (e, latest_close) in
      Outcome-ok _ _ _ found (bar, e, refl)

-- A best-effort write never raises.
pub swallow-Ends :
    {W : Type 0} {E : Error → Type 0} (m : Action W (Unit {0})) → Ends Anything E (swallow m)
unfolding swallow
swallow-Ends m = Ends-try_except Anything m _ (Ends-any m) (λ e _. Ends-pure _ tt)

module _ {F W : Type 0} ⦃fl : Float F⦄ (laws : IsOrdered fl) (settings : Settings F)
    (ext : External F W) (request : TradeSignalRequest) where
  evaluate-IsDomain :
      (bars : List (MarketBar F))
      → Outcome (IsCrossover bars request.short_window request.long_window) IsDomain (
          evaluate_moving_average_crossover request.symbol bars request.short_window
            request.long_window)
  evaluate-IsDomain bars =
      Outcome-weaken (IsCrossover bars request.short_window request.long_window) IsEngineError
        IsDomain
        (evaluate_moving_average_crossover request.symbol bars request.short_window
          request.long_window)
        (evaluate_sound laws request.symbol bars request.short_window request.long_window)
        (engine-IsDomain settings request)

  -- In any world, the steps before the order return an approval: a decision that is the crossover of
  -- some bars and no HOLD, neither the capital at risk nor the drawdown above its limit, and on a live
  -- account the drawdown that its equity gives. Or they raise a domain exception, or pydantic's refusal
  -- of a confidence. The quantity is one that a float can hold.
  pub approve-Ends : Ends (IsApproved settings request) IsDomain (approve settings ext request)
  unfolding approve record_audit_event record_strategy_run
  approve-Ends =
      Ends-bind _ _ _ (Ends-weaken IsDomain _ (get_portfolio_snapshot-Ends settings ext _) platform)
        λ s account.
          Ends-bind _ _ _
            (Ends-weaken IsDomain _ (get_recent_bars-Ends settings ext _ _ _) platform)
            λ bars _. Ends-bind _ _ _ (Ends-lift _ (evaluate-IsDomain bars)) λ d decided.
              Ends-bind Anything _ _ (recorded _) λ _ _. Ends-bind Anything _ _ (recorded _) λ _ _.
                Ends-bind _ _ _
                  (Ends-lift _ (
                    latest_close_sound settings request bars
                      (omega (arith, decided.shorter, decided.enough))))
                  λ price latest.
                    Ends-bind _ _ _
                      (Ends-weaken IsDomain _
                        (Ends-lift _ (
                          validate_trade-Outcome settings request.symbol d request.quantity price
                            s.net_liquidation s.drawdown_pct))
                        (violation-IsDomain settings request))
                      λ approved allowed. Ends-bind Anything _ _ (recorded _) λ _ _.
                        Ends-pure _ (record {
                          bars = bars;
                          decided = decided;
                          latest = latest;
                          tradable = allowed.0.0;
                          at_risk = allowed.0.1;
                          within_drawdown = allowed.0.2;
                          account = λ live. account (rw live refl);
                          flagged = allowed.1;
                        })
    where
      platform : (e : Error) → IsPlatform e → IsDomain e
      platform e h = inl h

      recorded : (r : Action W (Unit {0})) → Ends Anything IsDomain (swallow r)
      recorded r = swallow-Ends r
