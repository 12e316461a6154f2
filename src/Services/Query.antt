-- ===== src/Services/Query.antt =====
-- app/services/query_service.py: the read models of the tables.
use day_trade_intellegence.Repositories.Queries
use day_trade_intellegence.Core.Action.{Action, pure, ◌>>=◌}
use day_trade_intellegence.Db.Models.{
  Position, ReconciliationRun, Stored, StrategyRun, TradeAuditLog, TradeOrder,
}
use day_trade_intellegence.Db.Session.{Session}
use day_trade_intellegence.Domain.Reconciliation.{ReconciliationRunRead}
use day_trade_intellegence.Domain.Trading.{
  ListResponse, PositionListResponse, PositionRead, StrategyRunRead, TradeAuditLogRead,
  TradeOrderRead,
}
use day_trade_intellegence.Prelude.{List, Option, String, map, ℕ}
use day_trade_intellegence.Repositories.Queries.{Sql}

module _ {F : Type 0} where
  unfoldable pub trade_order_read : Stored (TradeOrder F) → TradeOrderRead F
  trade_order_read item = record {
    id = item.id;
    symbol = item.columns.symbol;
    action = item.columns.action;
    quantity = item.columns.quantity;
    status = item.columns.status;
    requested_price = item.columns.requested_price;
    broker_order_id = item.columns.broker_order_id;
    dry_run = item.columns.dry_run;
    metadata = item.columns.metadata_json;
    created_at = item.stamp;
  }

  unfoldable pub position_read : Stored (Position F) → PositionRead F
  position_read item = record {
    id = item.id;
    symbol = item.columns.symbol;
    side = item.columns.side;
    quantity = item.columns.quantity;
    average_price = item.columns.average_price;
    metadata = item.columns.metadata_json;
    updated_at = item.stamp;
  }

  unfoldable pub strategy_run_read : Stored (StrategyRun F) → StrategyRunRead F
  strategy_run_read item = record {
    id = item.id;
    symbol = item.columns.symbol;
    timeframe = item.columns.timeframe;
    short_window = item.columns.short_window;
    long_window = item.columns.long_window;
    action = item.columns.action;
    confidence = item.columns.confidence;
    reason = item.columns.reason;
    metadata = item.columns.metadata_json;
    created_at = item.stamp;
  }

  unfoldable pub audit_log_read : Stored (TradeAuditLog F) → TradeAuditLogRead F
  audit_log_read item = record {
    id = item.id;
    symbol = item.columns.symbol;
    status = item.columns.status;
    detail = item.columns.detail;
    metadata = item.columns.metadata_json;
    created_at = item.stamp;
  }

  unfoldable pub reconciliation_run_read : Stored (ReconciliationRun F) → ReconciliationRunRead F
  reconciliation_run_read item = record {
    id = item.id;
    status = item.columns.status;
    source = item.columns.source;
    checked_symbols = item.columns.checked_symbols;
    mismatched_symbols = item.columns.mismatched_symbols;
    detail = item.columns.detail;
    metadata = item.columns.metadata_json;
    created_at = item.stamp;
  }

-- A page of the rows that a repository found, as an answer.
unfoldable pub list_response : {A B : Type 0} → (A → B) → ℕ → ℕ → ℕ × List A → ListResponse B
list_response read limit offset (total, items) = record {
  total = total;
  limit = limit;
  offset = offset;
  items = map read items;
}

-- `TradingQueryService`, with the repository of reconciliation runs that the API gives it. The
-- methods have the names of those of the repositories.
module _ {F W : Type 0} (sql : Sql F) (db : Session F W) where
  unfoldable pub list_trade_orders :
      Option String → ℕ → ℕ → Action W (ListResponse (TradeOrderRead F))
  unfolding Queries.list_trade_orders trade_order_read list_response
  list_trade_orders symbol limit offset = do
    found ← Queries.list_trade_orders sql db symbol limit offset
    pure (list_response trade_order_read limit offset found)

  unfoldable pub list_positions : Option String → Action W (PositionListResponse F)
  unfolding Queries.list_positions position_read
  list_positions symbol = do
    found ← Queries.list_positions sql db symbol
    pure (record { total = found.0; items = map position_read found.1 })

  unfoldable pub list_strategy_runs :
      Option String → ℕ → ℕ → Action W (ListResponse (StrategyRunRead F))
  unfolding Queries.list_strategy_runs strategy_run_read list_response
  list_strategy_runs symbol limit offset = do
    found ← Queries.list_strategy_runs sql db symbol limit offset
    pure (list_response strategy_run_read limit offset found)

  unfoldable pub list_audit_logs :
      Option String → ℕ → ℕ → Action W (ListResponse (TradeAuditLogRead F))
  unfolding Queries.list_audit_logs audit_log_read list_response
  list_audit_logs symbol limit offset = do
    found ← Queries.list_audit_logs sql db symbol limit offset
    pure (list_response audit_log_read limit offset found)

  unfoldable pub list_reconciliation_runs :
      ℕ → ℕ → Action W (ListResponse (ReconciliationRunRead F))
  unfolding Queries.list_reconciliation_runs reconciliation_run_read list_response
  list_reconciliation_runs limit offset = do
    found ← Queries.list_reconciliation_runs sql db limit offset
    pure (list_response reconciliation_run_read limit offset found)
