-- ===== src/Services/Endings.antt =====
-- How the services end: their exceptions are the domain's own, and what their results say.
use day_trade_intellegence.Core.Action.{Result, err, modify, ok}
use day_trade_intellegence.Core.Action.Ends.{
  Anything, Ends, Ends-any, Ends-bind, Ends-if, Ends-pure, Ends-raise, Ends-try_except,
  Ends-try_finally, Outcome,
}
use day_trade_intellegence.Core.Errors.{Error, is_trading_platform_error}
use day_trade_intellegence.Core.Float.{Float, max, nought}
use day_trade_intellegence.Core.Settings.{Settings}
use day_trade_intellegence.Domain.Portfolio.{PortfolioSnapshot}
use day_trade_intellegence.Domain.Trading.{ExecutionResult, SignalAction}
use day_trade_intellegence.External.{External}
use day_trade_intellegence.Prelude.{
  Bool, String, arith, false, if◌then◌else◌, is_empty, not, refl, true, ℕ, ◌==◌, ◌||◌, ◌≡◌, ◌≢◌,
}
use day_trade_intellegence.Services.Execution.{execute_order, submit_order}
use day_trade_intellegence.Services.Market.{build_synthetic_bars, get_recent_bars, is_local_mode}
use day_trade_intellegence.Services.Portfolio.{
  build_live_snapshot, build_paper_snapshot, drawdown, get_portfolio_snapshot, read_account,
}
use day_trade_intellegence.Services.Risk.{is_hold}

abbrev pub IsPlatform : Error → Type 0
IsPlatform e = is_trading_platform_error e ≡ true

-- The drawdown of a live snapshot is the share by which its equity is below the higher of the equity
-- and the paper equity, and 0 where that is 0.
abbrev pub HasDrawdown : {F : Type 0} ⦃fl : Float F⦄ → Settings F → PortfolioSnapshot F → Type 0
HasDrawdown ⦃fl⦄ settings s =
    let highest = max s.net_liquidation settings.paper_account_equity in
    s.drawdown_pct ≡ (
      if fl.eq highest nought
      then nought
      else max (fl.div (fl.sub highest s.net_liquidation) highest) nought)

-- The status of a result says how the order went: simulated in a dry run, else submitted.
pub record IsExecuted (dry_run : Bool) (result : ExecutionResult) : Type 0 where
  pub simulated : dry_run ≡ true → result.status ≡ "simulated"
  pub submitted : dry_run ≡ false → result.status ≡ "submitted"

module _ {F W : Type 0} ⦃fl : Float F⦄ (settings : Settings F) (ext : External F W) where
  pub get_recent_bars-Ends :
      (symbol timeframe : String) (limit : ℕ)
      → Ends Anything IsPlatform (get_recent_bars settings ext symbol timeframe limit)
  unfolding get_recent_bars build_synthetic_bars is_trading_platform_error
  get_recent_bars-Ends symbol timeframe limit =
      Ends-if (is_empty settings.alpaca_api_key || is_empty settings.alpaca_secret_key) _ _
        (λ _.
          Ends-if (is_local_mode settings.environment) _ _ (λ _. record { at = λ w. tt })
            (λ _. Ends-raise _ refl))
        (λ _.
          Ends-if (not ext.alpaca.available) _ _ (λ _. Ends-raise _ refl)
            (λ _.
              Ends-try_except Anything _ _
                (Ends-bind Anything _ _ (Ends-any _) (λ r _. Ends-pure _ tt))
                (λ e _. Ends-raise _ refl)))

  read_account-Ends : Ends (HasDrawdown settings) Anything (read_account settings ext)
  unfolding read_account drawdown
  read_account-Ends = Ends-bind Anything _ _ (Ends-any _) λ _ _.
      Ends-bind Anything _ _ (Ends-any _) λ values _.
        Ends-bind Anything _ _ (Ends-any _) λ positions _.
          Ends-bind Anything _ _ (Ends-any _) λ net _.
            Ends-bind Anything _ _ (Ends-any _) λ funds _.
              Ends-bind Anything _ _ (Ends-any _)
                λ power _. Ends-bind Anything _ _ (Ends-any _) λ as_of _. Ends-pure _ refl

  pub get_portfolio_snapshot-Ends :
      (use_live_data : Bool)
      → Ends
          (λ s. use_live_data ≡ true → HasDrawdown settings s)
          IsPlatform
          (get_portfolio_snapshot settings ext use_live_data)
  unfolding modify get_portfolio_snapshot build_paper_snapshot build_live_snapshot
      is_trading_platform_error
  get_portfolio_snapshot-Ends use_live_data =
      Ends-if (not use_live_data) _ _ (λ paper. record { at = λ w live. ground arith })
        (λ _.
          Ends-if (not ext.ib.available) _ _ (λ _. Ends-raise _ refl)
            λ _.
              Ends-if (is_empty settings.ibkr_host || settings.ibkr_port == 0) _ _
                (λ _. Ends-raise _ refl)
                λ _.
                  Ends-bind Anything _ _ (record { at = λ w. tt })
                    λ _ _. Ends-try_finally _ _ (
                      Ends-try_except Anything _ _
                        (record { at = λ w. live_outcome _ (read_account-Ends.at w) })
                        (λ e _. Ends-raise _ refl)))
    where
      live_outcome :
          (r : Result (PortfolioSnapshot F))
          → Outcome (HasDrawdown settings) Anything r
          → Outcome (λ s. use_live_data ≡ true → HasDrawdown settings s) Anything r
      live_outcome (ok s) h = λ live. h
      live_outcome (err e) h = tt

  pub execute_order-Ends :
      (symbol : String) (action : SignalAction) (quantity : ℕ) (dry_run : Bool)
      → action ≢ SignalAction.hold
      → Ends
          (IsExecuted dry_run)
          IsPlatform
          (execute_order settings ext symbol action quantity dry_run)
  unfolding modify execute_order submit_order is_trading_platform_error
  execute_order-Ends symbol action quantity dry_run trade =
      Ends-if (is_hold action) _ _ (λ hold. absurd (trade (hold_of_is_hold action hold)))
        λ _.
          Ends-if dry_run _ _
            (λ dry. Ends-pure _ (record { simulated = λ _. refl; submitted = λ live. cc }))
            λ live.
              Ends-if (not ext.ib.available) _ _ (λ _. Ends-raise _ refl)
                λ _.
                  Ends-if (is_empty settings.ibkr_host || settings.ibkr_port == 0) _ _
                    (λ _. Ends-raise _ refl)
                    λ _.
                      Ends-bind Anything _ _ (record { at = λ w. tt })
                        λ _ _. Ends-try_finally _ _ (
                          Ends-try_except Anything _ _
                            (Ends-bind Anything _ _ (Ends-any _) λ _ _.
                              Ends-bind Anything _ _ (Ends-any _) λ id _.
                                Ends-pure _
                                  (record { simulated = λ dry. cc; submitted = λ _. refl }))
                            (λ e _. Ends-raise _ refl))
    where
      hold_of_is_hold : (a : SignalAction) → is_hold a ≡ true → a ≡ SignalAction.hold
      hold_of_is_hold SignalAction.hold e = refl
      hold_of_is_hold SignalAction.buy e = cc
      hold_of_is_hold SignalAction.sell e = cc
