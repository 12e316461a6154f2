-- ===== src/Tests/Orchestrator.antt =====
-- The trading workflow on concrete requests.
use day_trade_intellegence.Core.Action.{Result, err, try_except, try_finally, ◌>>=◌}
use day_trade_intellegence.Core.Action.Ends.{Ends}
use day_trade_intellegence.Core.Errors.{Error, class_name, message, respond}
use day_trade_intellegence.Core.Float.{nought}
use day_trade_intellegence.Core.Float.Fixed.{fixed, fixed-IsOrdered, ℤ}
use day_trade_intellegence.Db.Models.{Entity, TradeOrder, add_row}
use day_trade_intellegence.Db.Session.{with_position}
use day_trade_intellegence.Domain.Trading.{TradeSignalResponse}
use day_trade_intellegence.External.{BrokerOrder, order}
use day_trade_intellegence.Orchestrator.{
  approve, approved_event, evaluated_event, executed_event, failed_event, latest_close, position_of,
  process_signal, received_event, record_strategy_run, record_trade_order, save_position,
  strategy_run_of, trade_order_of,
}
use day_trade_intellegence.Orchestrator.Answers.{
  IsAnswer, process_signal-Ends, process_signal-respond,
}
use day_trade_intellegence.Orchestrator.Approval.{IsApproved, IsDomain, approve-Ends}
use day_trade_intellegence.Orchestrator.Logs.{
  Audited, Ordered, orders, process_signal-Audited, process_signal-Ordered, status_of, statuses,
  statuses-IsLog,
}
use day_trade_intellegence.Orchestrator.Safety.{
  Sent, process_signal-Sent, process_signal_solvent, received,
}
use day_trade_intellegence.Orchestrator.Sources.{HasEquity}
use day_trade_intellegence.Orchestrator.Trail.{Trail, all_added, process_signal-Trail}
use day_trade_intellegence.Prelude.{
  List, String, [], decimal, false, inr, refl, true, ◌++◌, ◌∷◌, ◌≡◌, ◌⊎◌,
}
use day_trade_intellegence.Repositories.{
  audit_log_row, create_audit_log, create_strategy_run, create_trade_order, strategy_run_row,
  trade_order_row, upsert_position,
}
use day_trade_intellegence.Services.Execution.{execute_order}
use day_trade_intellegence.Services.Market.{get_recent_bars}
use day_trade_intellegence.Services.Portfolio.{get_portfolio_snapshot}
use day_trade_intellegence.Services.Risk.{validate_trade}
use day_trade_intellegence.Services.Strategy.{closes, evaluate_moving_average_crossover, last_n}
use day_trade_intellegence.Tests.Simulation.{
  Sim, broke, broke_market, buy_request, funded, live_market, rising_bars, settings,
  sim-IsSeparated, sim_db-IsReliable, sim_db-IsTransactional, start,
}

trading : Unit {0}
unfolding last_n closes process_signal get_portfolio_snapshot get_recent_bars
    evaluate_moving_average_crossover validate_trade execute_order ◌>>=◌ try_except try_finally
    create_audit_log create_strategy_run create_trade_order upsert_position add_row with_position
    strategy_run_of received_event evaluated_event approved_event executed_event failed_event
    trade_order_of position_of latest_close decimal record_strategy_run record_trade_order
    save_position audit_log_row strategy_run_row trade_order_row
trading = tt

abbrev sent : Result (TradeSignalResponse ℤ) × Sim → List BrokerOrder
sent (r, s) = s.orders

live_order_test :
    sent (process_signal settings live_market (buy_request false) start) ≡ order "AAPL" "BUY" 1
unfolding trading
live_order_test = refl

dry_run_test : sent (process_signal settings live_market (buy_request true) start) ≡ []
unfolding trading
dry_run_test = refl

process_signal-Sent_example :
    Sent settings live_market
      (buy_request false)
      (received settings live_market (buy_request false) start)
      []
      (live_market.ib.accepted (process_signal settings live_market (buy_request false) start).1)
process_signal-Sent_example =
    process_signal-Sent fixed-IsOrdered settings live_market (sim-IsSeparated funded [] rising_bars)
      (buy_request false) start

process_signal-Ends_example :
    Ends
      (IsAnswer (buy_request false))
      IsDomain
      (process_signal settings live_market (buy_request false))
process_signal-Ends_example =
    process_signal-Ends fixed-IsOrdered settings live_market (buy_request false)

process_signal-Trail_example :
    (rows : List (Entity ℤ)) × Trail
      (buy_request true)
      (process_signal settings live_market (buy_request true) start).0
      rows
    × (statuses (process_signal settings live_market (buy_request true) start).1.database
        ≡ [] ++ all_added status_of rows)
process_signal-Trail_example =
    process_signal-Trail settings live_market (sim-IsSeparated funded [] rising_bars)
      sim_db-IsTransactional sim_db-IsReliable statuses-IsLog (buy_request true) start

process_signal-Audited_example :
    (added : List String) × Audited
      (process_signal settings live_market (buy_request true) start).0
      added
    × (statuses (process_signal settings live_market (buy_request true) start).1.database
        ≡ [] ++ added)
process_signal-Audited_example =
    process_signal-Audited settings live_market (sim-IsSeparated funded [] rising_bars)
      sim_db-IsTransactional sim_db-IsReliable (buy_request true) start

process_signal-Ordered_example :
    (added : List (TradeOrder ℤ)) × Ordered
      (buy_request false)
      (process_signal settings live_market (buy_request false) start).0
      added
    × (orders (process_signal settings live_market (buy_request false) start).1.database
        ≡ [] ++ added)
process_signal-Ordered_example =
    process_signal-Ordered settings live_market (sim-IsSeparated funded [] rising_bars)
      sim_db-IsTransactional sim_db-IsReliable (buy_request false) start

broke_reported :
    HasEquity settings broke_market
      (received settings broke_market (buy_request false) start)
      nought
broke_reported = (broke, refl, inr ("0", ([], ([], refl, tt)), refl))

-- An account without equity places no order.
process_signal_solvent_example :
    broke_market.ib.accepted (process_signal settings broke_market (buy_request false) start).1 ≡ []
process_signal_solvent_example =
    process_signal_solvent fixed-IsOrdered settings broke_market
      (sim-IsSeparated broke [] rising_bars) (buy_request false) start nought broke_reported refl
      refl refl refl

approve-Ends_example :
    Ends
      (IsApproved settings (buy_request false))
      IsDomain
      (approve settings live_market (buy_request false))
approve-Ends_example = approve-Ends fixed-IsOrdered settings live_market (buy_request false)

executed_test :
    statuses (process_signal settings live_market (buy_request false) start).1.database
    ≡ "RECEIVED" ∷ "STRATEGY_EVALUATED" ∷ "RISK_APPROVED" ∷ "EXECUTED" ∷ []
unfolding trading
executed_test = refl

broke_test :
    statuses (process_signal settings broke_market (buy_request false) start).1.database
    ≡ "RECEIVED" ∷ "STRATEGY_EVALUATED" ∷ "FAILED" ∷ []
unfolding trading
broke_test = refl

abbrev drawdown_error : Error
drawdown_error = Error.risk_violation_error "Account drawdown 10000 exceeds allowed threshold."

broke_raises :
    (process_signal settings broke_market (buy_request false) start).0 ≡ err drawdown_error
unfolding trading
broke_raises = refl

process_signal-respond_example :
    (((respond drawdown_error).status_code ≡ 400)
      × ((respond drawdown_error).detail ≡ message drawdown_error))
    ⊎ (class_name drawdown_error ≡ "ValidationError")
process_signal-respond_example =
    process_signal-respond fixed-IsOrdered settings broke_market (buy_request false) start
      drawdown_error broke_raises
