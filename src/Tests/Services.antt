-- ===== src/Tests/Services.antt =====
-- The services and the repositories on concrete data.
use day_trade_intellegence.Core.Action.{err, ok}
use day_trade_intellegence.Core.Action.Ends.{Outcome}
use day_trade_intellegence.Core.Errors.{Error}
use day_trade_intellegence.Core.Float.{nought}
use day_trade_intellegence.Core.Float.Fixed.{fixed, fixed-IsOrdered, ℤ}
use day_trade_intellegence.Core.Settings.{Settings}
use day_trade_intellegence.Domain.Json.{Metadata}
use day_trade_intellegence.Domain.Reconciliation.{ReconciliationStatus}
use day_trade_intellegence.Domain.Trading.{MarketBar, SignalAction, StrategyDecision}
use day_trade_intellegence.Prelude.{
  IsAmong, List, String, [], arith, false, length, refl, some, true, ◌↔◌, ◌∷◌, ◌≡◌, ◌≢◌, ◌≤◌, ◌⊎◌,
}
use day_trade_intellegence.Repositories.{has_symbol, upsert_position}
use day_trade_intellegence.Repositories.Positions.{IsUpserted, held}
use day_trade_intellegence.Repositories.Upsert.{upsert_position_lem}
use day_trade_intellegence.Services.Connections.{services_disconnect}
use day_trade_intellegence.Services.Execution.{execute_order}
use day_trade_intellegence.Services.Market.{get_recent_bars, is_local_mode}
use day_trade_intellegence.Services.Market.Synthetic.{get_recent_bars_offline}
use day_trade_intellegence.Services.Portfolio.{get_portfolio_snapshot}
use day_trade_intellegence.Services.Reconciliation.{
  compare_positions, compare_symbol, position_for, reconcile_positions, summary, value_or_nought,
}
use day_trade_intellegence.Services.Reconciliation.Comparison.{
  IsAgreed, compare_positions_agreed, compare_positions_complete, covered,
  short_position_mismatched, summary_matched,
}
use day_trade_intellegence.Services.Reconciliation.Runs.{Recorded, reconcile_positions-Recorded}
use day_trade_intellegence.Services.Reconciliation.Symbols.{IsIncreasing}
use day_trade_intellegence.Services.Risk.{validate_trade}
use day_trade_intellegence.Services.Risk.Policy.{IsAllowed, validate_trade_iff}
use day_trade_intellegence.Services.Strategy.{closes, evaluate_moving_average_crossover, last_n}
use day_trade_intellegence.Services.Strategy.Crossover.{
  IsCrossover, IsEngineError, evaluate_sound, evaluate_total, mean,
}
use day_trade_intellegence.Tests.Simulation.{
  account_with, bought, funded, held_by_broker, held_here, live_market, rising_bars, settings,
  sim-IsSeparated, sim_db, sim_db-IsReliable, sim_db-IsTransactional, sim_sql, start,
  with_one_position,
}

evaluate_sound_example :
    Outcome
      (IsCrossover rising_bars 2 4)
      IsEngineError
      (evaluate_moving_average_crossover "AAPL" rising_bars 2 4)
evaluate_sound_example = evaluate_sound fixed-IsOrdered "AAPL" rising_bars 2 4

positive_average : fixed.lt nought (mean 4 rising_bars) ≡ true
unfolding closes last_n
positive_average = refl

evaluate_total_example :
    (d : StrategyDecision ℤ) × (evaluate_moving_average_crossover "AAPL" rising_bars 2 4 ≡ ok d)
    × IsCrossover rising_bars 2 4 d
evaluate_total_example =
    evaluate_total fixed-IsOrdered "AAPL" rising_bars 2 4 (omega arith) (omega arith) (omega arith)
      positive_average refl

reconcile_positions-Recorded_example :
    Recorded sim_sql settings live_market true start
      (reconcile_positions sim_sql settings live_market true start).0
      (reconcile_positions sim_sql settings live_market true start).1
reconcile_positions-Recorded_example =
    reconcile_positions-Recorded sim_sql settings live_market
      (sim-IsSeparated funded [] rising_bars) sim_db-IsTransactional sim_db-IsReliable true start

compare_positions_complete_example :
    IsIncreasing (covered (held_here ∷ []) (account_with []))
    × ((symbol : String)
        → IsAmong symbol (covered (held_here ∷ []) (account_with []))
          ↔ (⊥ ⊎ IsAmong symbol ("AAPL" ∷ [])))
compare_positions_complete_example = compare_positions_complete (held_here ∷ []) (account_with [])

agreed : (symbol : String) → IsAgreed [] (account_with []) symbol
unfolding position_for value_or_nought
agreed symbol = record {
  quantity = refl;
  price = refl;
  finite_quantity = refl;
  finite_price = refl;
}

compare_positions_agreed_example :
    ((summary "ibkr" (compare_positions [] (account_with []))).status
      ≡ ReconciliationStatus.matched)
    × ((summary "ibkr" (compare_positions [] (account_with []))).mismatched_symbols ≡ 0)
compare_positions_agreed_example =
    compare_positions_agreed [] (account_with []) fixed-IsOrdered agreed

found : position_for (λ q. q.symbol) "AAPL" (held_here ∷ []) ≡ some held_here
unfolding position_for
found = refl

sold :
    fixed.le
      (value_or_nought
        (λ q. q.quantity)
        (position_for (λ q. q.symbol) "AAPL" (held_by_broker (ℤ.negsuc 29999) ∷ [])))
      nought
    ≡ true
unfolding position_for value_or_nought
sold = refl

short_position_mismatched_example :
    (compare_symbol
      (held_here ∷ [])
      (account_with (held_by_broker (ℤ.negsuc 29999) ∷ []))
      "AAPL").matched
    ≡ false
short_position_mismatched_example =
    short_position_mismatched (held_here ∷ []) (account_with (held_by_broker (ℤ.negsuc 29999) ∷ []))
      fixed-IsOrdered "AAPL" held_here found (omega arith) refl sold

summary_matched_example :
    (((summary {F = ℤ} "ibkr" []).status ≡ ReconciliationStatus.matched) ↔ Unit {0})
    × ((summary {F = ℤ} "ibkr" []).status ≢ ReconciliationStatus.failed)
    × ((summary {F = ℤ} "ibkr" []).checked_symbols ≡ 0)
summary_matched_example = summary_matched "ibkr" []

one_held : length (held "AAPL" with_one_position.database.positions) ≤ 1
unfolding has_symbol
one_held = omega arith

upsert_position_example :
    ((upsert_position sim_db bought with_one_position).0 ≡ ok tt)
    × IsUpserted bought with_one_position.database.positions
        (upsert_position sim_db bought with_one_position).1.database.positions
upsert_position_example =
    upsert_position_lem sim_db sim_db-IsTransactional sim_db-IsReliable bought with_one_position
      (tt, tt) one_held

services_disconnect_example :
    (live_market.ib.is_connected
        (execute_order settings live_market "AAPL" SignalAction.buy 1 true start).1
      ≡ false)
    × (live_market.ib.is_connected (get_portfolio_snapshot settings live_market true start).1
        ≡ false)
services_disconnect_example =
    services_disconnect settings live_market (λ w. refl) "AAPL" SignalAction.buy 1 true start refl

abbrev keyless : Settings ℤ
keyless = record settings { alpaca_api_key = "" }

get_recent_bars_offline_example :
    ((get_recent_bars keyless live_market "AAPL" "1Min" 30 start).1 ≡ start)
    × (is_local_mode "Development" ≡ true
        → (bars : List (MarketBar ℤ)) × ((get_recent_bars keyless live_market "AAPL" "1Min" 30
              start).0
            ≡ ok bars)
          × (length bars ≡ 30))
    × (is_local_mode "Development" ≡ false
        → (m : String) × ((get_recent_bars keyless live_market "AAPL" "1Min" 30 start).0
            ≡ err (Error.configuration_error m)))
get_recent_bars_offline_example =
    get_recent_bars_offline keyless live_market "AAPL" "1Min" 30 start refl

abbrev buy : StrategyDecision ℤ
buy = record {
  action = SignalAction.buy;
  confidence = ℤ.pos 5000;
  reason = "";
  metadata = Metadata.empty;
}

validate_trade_iff_example :
    ((validate_trade settings "AAPL" buy 1 (ℤ.pos 1000000) (ℤ.pos 1000000000) (ℤ.pos 0) ≡ ok true)
      ↔ IsAllowed settings "AAPL" buy 1 (ℤ.pos 1000000) (ℤ.pos 1000000000) (ℤ.pos 0))
    × ((validate_trade settings "AAPL" buy 1 (ℤ.pos 1000000) (ℤ.pos 1000000000) (ℤ.pos 0) ≡ ok true)
        ⊎ ((m : String) × (validate_trade settings "AAPL" buy 1
                (ℤ.pos 1000000)
                (ℤ.pos 1000000000)
                (ℤ.pos 0)
              ≡ err (Error.risk_violation_error m))))
validate_trade_iff_example =
    validate_trade_iff settings "AAPL" buy 1 (ℤ.pos 1000000) (ℤ.pos 1000000000) (ℤ.pos 0)
