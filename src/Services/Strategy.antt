-- ===== src/Services/Strategy.antt =====
-- app/services/strategy_engine.py: the moving-average crossover. A window of a request is a natural,
-- since validation refuses smaller ones.
pub mod Crossover
use day_trade_intellegence.Prelude.{
  ℕ, ◌-◌, String, ◌&&◌, List, [], ◌∷◌, map, ltb, leb, ◌==◌, if◌then◌else◌, fmt, decimal, length,
  drop,
}
use day_trade_intellegence.Core.Errors.{Error}
use day_trade_intellegence.Core.Action.{Result, ok, err, and_then}
use day_trade_intellegence.Core.Float.{Float, nought, one, min}
use day_trade_intellegence.Domain.Json.{Json, Metadata}
use day_trade_intellegence.Domain.Trading.{SignalAction, MarketBar, StrategyDecision}

-- `xs[-n:]`, which is all of `xs` for `n` equal to 0.
unfoldable pub last_n {ℓ} : {A : Type ℓ} → ℕ → List A → List A
last_n n xs = if n == 0 then xs else drop (length xs - n) xs

module _ {F : Type 0} ⦃fl : Float F⦄ where
  unfoldable pub closes : List (MarketBar F) → List F
  closes = map (λ bar. bar.close)

  -- `sum(closes[-window:]) / window`, a division by an `int` that may be 0
  unfoldable pub average : ℕ → List (MarketBar F) → Result F
  average window bars =
      if window == 0
      then err (Error.other "ZeroDivisionError" "float division by zero")
      else ok (fl.div (fl.sum (last_n window (closes bars))) (fl.of_int window))

  -- An exception inside the `try` becomes a `StrategyError`.
  unfoldable pub wrap_strategy_error : Result (F × F) → Result (F × F)
  wrap_strategy_error (ok averages) = ok averages
  wrap_strategy_error (err exc) = err (Error.strategy_error "Failed to calculate moving averages.")

  unfoldable pub averages : ℕ → ℕ → List (MarketBar F) → Result (F × F)
  unfolding average wrap_strategy_error
  averages short_window long_window bars = wrap_strategy_error (
      and_then (average short_window bars)
        (λ s. and_then (average long_window bars) (λ l. ok (s, l))))

  unfoldable pub choose_action : F → F → SignalAction
  choose_action short_average long_average =
      if fl.lt long_average short_average
      then SignalAction.buy
      else if fl.lt short_average long_average
      then SignalAction.sell
      else SignalAction.hold

  unfoldable pub choose_reason : F → F → String
  choose_reason short_average long_average =
      if fl.lt long_average short_average
      then "Short moving average crossed above long moving average."
      else if fl.lt short_average long_average
      then "Short moving average fell below long moving average."
      else "Moving averages are equal, so no directional edge is present."

  -- `min(gap / long_average, 1.0) if long_average else 0.0`
  unfoldable pub gap_confidence : F → F → F
  gap_confidence short_average long_average =
      if fl.eq long_average nought
      then nought
      else min (fl.div (fl.abs (fl.sub short_average long_average)) long_average) one

  -- `StrategyDecision(…)`: pydantic checks that the confidence is from 0 to 1.
  unfoldable pub make_decision :
      SignalAction → F → String → Metadata F → Result (StrategyDecision F)
  make_decision action confidence reason metadata =
      if fl.le nought confidence && fl.le confidence one
      then ok (record {
        action = action;
        confidence = confidence;
        reason = reason;
        metadata = metadata;
      })
      else err (Error.other "ValidationError" "confidence")

  unfoldable pub decide : F → F → Result (StrategyDecision F)
  unfolding choose_action choose_reason gap_confidence make_decision
  decide short_average long_average =
      make_decision (choose_action short_average long_average)
        (gap_confidence short_average long_average) (choose_reason short_average long_average)
        (Metadata.entry "short_average" (Json.float short_average)
          (Metadata.entry "long_average" (Json.float long_average) Metadata.empty))

  unfoldable pub evaluate_moving_average_crossover :
      String → List (MarketBar F) → ℕ → ℕ → Result (StrategyDecision F)
  unfolding averages decide
  evaluate_moving_average_crossover symbol bars short_window long_window =
      if leb long_window short_window
      then err (Error.strategy_error "The long moving average window must exceed the short window.")
      else if ltb (length bars) long_window
      then err (
          Error.strategy_error (
            fmt (
              "Not enough bars to evaluate strategy. Required: "
              ∷ decimal long_window
              ∷ ", received: "
              ∷ decimal (length bars)
              ∷ "."
              ∷ [])))
      else and_then (averages short_window long_window bars) (λ p. decide p.0 p.1)
