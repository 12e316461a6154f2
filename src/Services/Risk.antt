-- ===== src/Services/Risk.antt =====
-- app/services/risk_manager.py.
pub mod Policy
use day_trade_intellegence.Prelude.{ℕ, String, Bool, true, false, [], ◌∷◌, if◌then◌else◌, fmt}
use day_trade_intellegence.Core.Errors.{Error}
use day_trade_intellegence.Core.Action.{Result, ok, err}
use day_trade_intellegence.Core.Float.{Float, nought}
use day_trade_intellegence.Core.Settings.{Settings}
use day_trade_intellegence.Domain.Trading.{SignalAction, StrategyDecision}

abbrev pub is_hold : SignalAction → Bool
is_hold SignalAction.hold = true
is_hold SignalAction.buy = false
is_hold SignalAction.sell = false

module _ {F : Type 0} ⦃fl : Float F⦄ where
  -- `0.0 if account_equity == 0 else quantity * reference_price / account_equity`, for a quantity that
  -- a float can hold: the product raises an `OverflowError` for any other.
  unfoldable pub capital_at_risk_pct : ℕ → F → F → F
  capital_at_risk_pct quantity reference_price account_equity =
      if fl.eq account_equity nought
      then nought
      else fl.div (fl.mul (fl.of_int quantity) reference_price) account_equity

  unfoldable pub validate_trade :
      Settings F → String → StrategyDecision F → ℕ → F → F → F → Result Bool
  unfolding capital_at_risk_pct
  validate_trade settings symbol decision quantity reference_price account_equity
        current_drawdown_pct =
      let at_risk = capital_at_risk_pct quantity reference_price account_equity in
      if is_hold decision.action
      then err (
          Error.risk_violation_error
            (fmt (symbol ∷ " generated a HOLD signal, so no trade should be executed." ∷ [])))
      else if fl.lt settings.max_capital_at_risk_pct at_risk
      then err (
          Error.risk_violation_error (
            fmt (
              "Trade exceeds capital at risk limit: "
              ∷ fl.format4 at_risk
              ∷ " > "
              ∷ fl.format4 settings.max_capital_at_risk_pct
              ∷ "."
              ∷ [])))
      else if fl.lt settings.max_drawdown_pct current_drawdown_pct
      then err (
          Error.risk_violation_error (
            fmt (
              "Account drawdown "
              ∷ fl.format4 current_drawdown_pct
              ∷ " exceeds allowed threshold."
              ∷ [])))
      else ok true
