-- ===== src/Services/Risk/Policy.antt =====
-- The trades that the risk policy approves.
use day_trade_intellegence.Core.Action.{Result, err, ok}
use day_trade_intellegence.Core.Action.Ends.{Outcome}
use day_trade_intellegence.Core.Errors.{Error}
use day_trade_intellegence.Core.Float.{Float, nought}
use day_trade_intellegence.Core.Settings.{Settings}
use day_trade_intellegence.Domain.Trading.{SignalAction, StrategyDecision}
use day_trade_intellegence.Prelude.{
  Bool, Bool-cases, String, ap, false, inl, inr, refl, true, ℕ, ◌↔◌, ◌≡◌, ◌≢◌, ◌⊎◌,
}
use day_trade_intellegence.Services.Risk.{capital_at_risk_pct, is_hold, validate_trade}

abbrev pub IsViolation : Error → Type 0
IsViolation e = (m : String) × (e ≡ Error.risk_violation_error m)

-- The capital at risk is not above its limit: the price of the quantity as a share of the equity, and
-- 0 for an account without equity.
abbrev pub IsWithinCapital : {F : Type 0} ⦃fl : Float F⦄ → Settings F → ℕ → F → F → Type 0
IsWithinCapital ⦃fl⦄ settings quantity price equity =
    ((fl.eq equity nought ≡ true) × (fl.lt settings.max_capital_at_risk_pct nought ≡ false))
    ⊎ ((fl.eq equity nought ≡ false)
        × (fl.lt settings.max_capital_at_risk_pct
              (fl.div (fl.mul (fl.of_int quantity) price) equity)
            ≡ false))

module _ {F : Type 0} ⦃fl : Float F⦄ (settings : Settings F) (quantity : ℕ) (price equity : F) where
  within_of_ratio :
      fl.lt settings.max_capital_at_risk_pct (capital_at_risk_pct quantity price equity) ≡ false
      → IsWithinCapital settings quantity price equity
  unfolding capital_at_risk_pct
  within_of_ratio h = elim (Bool-cases (fl.eq equity nought)) [
    | inl e ↦ inl (e, rw e at h)
    | inr e ↦ inr (e, rw e at h)
  ]

  ratio_of_within :
      IsWithinCapital settings quantity price equity
      → fl.lt settings.max_capital_at_risk_pct (capital_at_risk_pct quantity price equity) ≡ false
  unfolding capital_at_risk_pct
  ratio_of_within (inl (e, h)) = rw e h
  ratio_of_within (inr (e, h)) = rw e h

module _ {F : Type 0} ⦃fl : Float F⦄ (settings : Settings F) (symbol : String)
    (d : StrategyDecision F) (quantity : ℕ) (price equity drawdown_pct : F) where
  -- No HOLD, and neither limit exceeded.
  abbrev pub IsAllowed : Type 0
  IsAllowed =
      (d.action ≢ SignalAction.hold)
      × IsWithinCapital settings quantity price equity
      × (fl.lt settings.max_drawdown_pct drawdown_pct ≡ false)

  abbrev approval : Result Bool
  approval = validate_trade settings symbol d quantity price equity drawdown_pct

  tradable_of_not_hold : (a : SignalAction) → is_hold a ≡ false → a ≢ SignalAction.hold
  tradable_of_not_hold SignalAction.hold e = cc
  tradable_of_not_hold SignalAction.buy e = cc
  tradable_of_not_hold SignalAction.sell e = cc

  not_hold_of_tradable : (a : SignalAction) → a ≢ SignalAction.hold → is_hold a ≡ false
  not_hold_of_tradable SignalAction.hold e = absurd (e refl)
  not_hold_of_tradable SignalAction.buy e = refl
  not_hold_of_tradable SignalAction.sell e = refl

  pub validate_trade-Outcome :
      Outcome (λ approved. IsAllowed × (approved ≡ true)) IsViolation approval
  unfolding validate_trade
  validate_trade-Outcome = elim (Bool-cases (is_hold d.action)) [
    | inl e ↦ rw e (_, refl)
    | inr e ↦
        elim (Bool-cases
          (fl.lt settings.max_capital_at_risk_pct (capital_at_risk_pct quantity price equity))) [
            | inl f ↦ rw (e, f) (_, refl)
            | inr f ↦ elim (Bool-cases (fl.lt settings.max_drawdown_pct drawdown_pct)) [
              | inl g ↦ rw (e, f, g) (_, refl)
              | inr g ↦
                  rw (e, f, g)
                    (
                      (
                        tradable_of_not_hold d.action e,
                        within_of_ratio settings quantity price equity f,
                        refl,
                      ),
                      refl,
                    )
            ]
          ]
  ]

  approved_of_allowed : IsAllowed → approval ≡ ok true
  unfolding validate_trade
  approved_of_allowed (tradable, at_risk, within) =
      let limit = ratio_of_within settings quantity price equity at_risk in
      rw (not_hold_of_tradable d.action tradable, limit, within) refl

  approved_or_violation :
      (r : Result Bool)
      → Outcome (λ approved. IsAllowed × (approved ≡ true)) IsViolation r
      → (r ≡ ok true → IsAllowed)
        × ((r ≡ ok true) ⊎ ((m : String) × (r ≡ err (Error.risk_violation_error m))))
  approved_or_violation (ok b) (allowed, e) = (λ h. allowed, inl (ap ok e))
  approved_or_violation (err x) (m, e) = (λ h. cc, inr (m, ap err e))

  -- For a quantity that a float can hold, the policy approves a trade just when the decision is no
  -- HOLD, the price of the quantity as a share of the equity is not above the limit of the capital at
  -- risk, where the share of an equity of 0 counts as 0, and the drawdown is not above its limit; and
  -- it raises a `RiskViolationError` otherwise.
  pub validate_trade_iff :
      ((approval ≡ ok true) ↔ IsAllowed)
      × ((approval ≡ ok true) ⊎ ((m : String) × (approval ≡ err (Error.risk_violation_error m))))
  validate_trade_iff =
      let (into, either) = approved_or_violation approval validate_trade-Outcome in
      ((into, approved_of_allowed), either)
