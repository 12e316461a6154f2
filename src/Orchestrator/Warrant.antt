-- ===== src/Orchestrator/Warrant.antt =====
-- Why `approve` lets a trade through: the run, the account and the bars behind an approval.
use mathlib.Core.Path.{subst}
use day_trade_intellegence.Core.Action.{lift, ok, pure}
use day_trade_intellegence.Core.Action.Ends.{Outcome}
use day_trade_intellegence.Core.Action.Recover.{bind_returned, ok_injective}
use day_trade_intellegence.Core.Float.{Float, IsOrdered}
use day_trade_intellegence.Core.Settings.{Settings}
use day_trade_intellegence.Domain.Portfolio.{PortfolioSnapshot}
use day_trade_intellegence.Domain.Trading.{MarketBar, StrategyDecision, TradeSignalRequest}
use day_trade_intellegence.External.{External}
use day_trade_intellegence.Orchestrator.{Approved, approve, latest_close}
use day_trade_intellegence.Orchestrator.Approval.{IsApproved, IsDomain, latest_close_sound}
use day_trade_intellegence.Orchestrator.Sources.{
  IsMarketData, IsReported, get_portfolio_snapshot-IsReported, get_recent_bars-IsMarketData,
}
use day_trade_intellegence.Prelude.{Bool, List, arith, false, last?, not, some, true, ◌≡◌}
use day_trade_intellegence.Services.Market.{get_recent_bars}
use day_trade_intellegence.Services.Portfolio.{get_portfolio_snapshot}
use day_trade_intellegence.Services.Risk.{validate_trade}
use day_trade_intellegence.Services.Risk.Policy.{IsAllowed, IsViolation, validate_trade-Outcome}
use day_trade_intellegence.Services.Strategy.{evaluate_moving_average_crossover}
use day_trade_intellegence.Services.Strategy.Crossover.{IsCrossover, IsEngineError, evaluate_sound}

module _ {F W : Type 0} ⦃fl : Float F⦄ (settings : Settings F) (ext : External F W)
    (request : TradeSignalRequest) where
  -- The trade that `approve` lets through in this world, for a reason: the bars on which it decides are
  -- those of the symbol that was asked for, and a live account is the one that the broker reports.
  pub record IsWarranted (w : W) (a : Approved F) : Type 0 where
    pub returned : (approve settings ext request w).0 ≡ ok a
    pub approval : IsApproved settings request a
    pub market :
        IsMarketData settings ext request.symbol request.long_window
          (get_portfolio_snapshot settings ext (not request.dry_run) w).1
          approval.bars
    pub account : request.dry_run ≡ false → IsReported settings ext w a.portfolio_snapshot

  abbrev candidate : PortfolioSnapshot F → StrategyDecision F → F → Bool → Approved F
  candidate s d price flag = record {
    portfolio_snapshot = s;
    decision = d;
    latest_price = price;
    risk_approved = flag;
  }

  warranted :
      IsOrdered fl
      → (w : W) (s : PortfolioSnapshot F) (bars : List (MarketBar F)) (d : StrategyDecision F)
      → (price : F) (flag : Bool)
      → (get_portfolio_snapshot settings ext (not request.dry_run) w).0 ≡ ok s
      → (get_recent_bars settings ext request.symbol request.timeframe request.long_window
          (get_portfolio_snapshot settings ext (not request.dry_run) w).1).0
        ≡ ok bars
      → evaluate_moving_average_crossover request.symbol bars request.short_window
          request.long_window
        ≡ ok d
      → latest_close bars ≡ ok price
      → validate_trade settings request.symbol d request.quantity price s.net_liquidation
          s.drawdown_pct
        ≡ ok flag
      → (approve settings ext request w).0 ≡ ok (candidate s d price flag)
      → IsWarranted w (candidate s d price flag)
  warranted laws w s bars d price flag reported asked decided latest allowed returned =
      let crossover : IsCrossover bars request.short_window request.long_window d =
        subst (Outcome (IsCrossover bars request.short_window request.long_window) IsEngineError)
          decided
          (evaluate_sound laws request.symbol bars request.short_window request.long_window) in
      let priced : (bar : MarketBar F) × (last? bars ≡ some bar) × (price ≡ bar.close) =
        subst
          (Outcome (λ p. (bar : MarketBar F) × (last? bars ≡ some bar) × (p ≡ bar.close)) IsDomain)
          latest
          (latest_close_sound settings request bars
            (omega (arith, crossover.shorter, crossover.enough))) in
      let limits : IsAllowed settings request.symbol d request.quantity price s.net_liquidation
            s.drawdown_pct
          × (flag ≡ true) =
        subst
          (Outcome
            (λ b.
              IsAllowed settings request.symbol d request.quantity price s.net_liquidation
                s.drawdown_pct
              × (b ≡ true))
            IsViolation)
          allowed
          (validate_trade-Outcome settings request.symbol d request.quantity price s.net_liquidation
            s.drawdown_pct) in
      let account : request.dry_run ≡ false → IsReported settings ext w s =
        λ live. get_portfolio_snapshot-IsReported settings ext w s (rw live at reported) in
      record {
        returned = returned;
        approval = record {
          bars = bars;
          decided = crossover;
          latest = priced;
          tradable = limits.0.0;
          at_risk = limits.0.1;
          within_drawdown = limits.0.2;
          account = λ live. (account live).1;
          flagged = limits.1;
        };
        market =
            get_recent_bars-IsMarketData settings ext request.symbol request.timeframe
              request.long_window _ bars asked;
        account = account;
      }

  pub approve-IsWarranted :
      IsOrdered fl
      → (w : W) (a : Approved F) → (approve settings ext request w).0 ≡ ok a
      → IsWarranted w a
  unfolding approve lift pure
  approve-IsWarranted laws w a h =
      let (s, reported, h1) = bind_returned _ _ _ h in
      let (bars, asked, h2) = bind_returned _ _ _ h1 in
      let (d, decided, h3) = bind_returned _ _ _ h2 in
      let (u, stored, h4) = bind_returned _ _ _ h3 in
      let (v, audited, h5) = bind_returned _ _ _ h4 in
      let (price, latest, h6) = bind_returned _ _ _ h5 in
      let (flag, allowed, h7) = bind_returned _ _ _ h6 in
      let (t, noted, h8) = bind_returned _ _ _ h7 in
      subst (λ b. (approve settings ext request w).0 ≡ ok b → IsWarranted w b) (ok_injective h8)
        (warranted laws w s bars d price flag reported asked decided latest allowed) h
