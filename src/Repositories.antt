-- ===== src/Repositories.antt =====
-- app/repositories: one function per method. A `create_…` adds one object and commits it.
pub mod Queries
pub mod Positions
pub mod Upsert
pub mod Users
use day_trade_intellegence.Core.Action.{Action, Result, err, lift, ok, pure, ◌>>=◌, ◌>>◌}
use day_trade_intellegence.Core.Errors.{Error}
use day_trade_intellegence.Db.Models.{
  Entity, Position, ReconciliationRun, Stored, StrategyRun, TradeAuditLog, TradeOrder, User,
}
use day_trade_intellegence.Db.Session.{Session}
use day_trade_intellegence.Domain.Reconciliation.{ReconciliationRunRecord, reconciliation_value}
use day_trade_intellegence.Domain.Trading.{
  PositionRecord, StrategyRunRecord, TradeAuditRecord, TradeOrderRecord, action_value,
  lifecycle_value, order_status_value, side_value,
}
use day_trade_intellegence.Prelude.{
  Bool, List, Option, String, [], filter, none, some, str_eq, true, ◌∷◌,
}

-- `query.one_or_none()`
unfoldable pub one_or_none : {A : Type 0} → List A → Result (Option A)
one_or_none [] = ok none
one_or_none (x ∷ []) = ok (some x)
one_or_none (x ∷ y ∷ rest) =
    err
      (Error.other "MultipleResultsFound" "Multiple rows were found when one or none was required")

module _ {F : Type 0} where
  -- The object that `upsert_position` stores, columns in the order of the source.
  unfoldable pub position_row : PositionRecord F → Position F
  unfolding side_value
  position_row r = record {
    symbol = r.symbol;
    side = side_value r.side;
    quantity = r.quantity;
    average_price = r.average_price;
    metadata_json = r.metadata;
  }

  unfoldable pub audit_log_row : TradeAuditRecord F → TradeAuditLog F
  unfolding lifecycle_value
  audit_log_row r = record {
    symbol = r.symbol;
    status = lifecycle_value r.status;
    detail = r.detail;
    metadata_json = r.metadata;
  }

  unfoldable pub strategy_run_row : StrategyRunRecord F → StrategyRun F
  unfolding action_value
  strategy_run_row r = record {
    symbol = r.symbol;
    timeframe = r.timeframe;
    short_window = r.short_window;
    long_window = r.long_window;
    action = action_value r.action;
    confidence = r.confidence;
    reason = r.reason;
    metadata_json = r.metadata;
  }

  unfoldable pub trade_order_row : TradeOrderRecord F → TradeOrder F
  unfolding action_value order_status_value
  trade_order_row r = record {
    symbol = r.symbol;
    action = action_value r.action;
    quantity = r.quantity;
    status = order_status_value r.status;
    requested_price = r.requested_price;
    broker_order_id = r.broker_order_id;
    dry_run = r.dry_run;
    metadata_json = r.metadata;
  }

  unfoldable pub reconciliation_run_row : ReconciliationRunRecord F → ReconciliationRun F
  unfolding reconciliation_value
  reconciliation_run_row r = record {
    status = reconciliation_value r.status;
    source = r.source;
    checked_symbols = r.checked_symbols;
    mismatched_symbols = r.mismatched_symbols;
    detail = r.detail;
    metadata_json = r.metadata;
  }

  unfoldable pub has_symbol : String → Stored (Position F) → Bool
  has_symbol symbol row = str_eq row.columns.symbol symbol

module _ {F W : Type 0} (db : Session F W) where
  unfoldable pub create_audit_log : TradeAuditRecord F → Action W (Unit {0})
  create_audit_log r = db.insert (Entity.trade_audit_log (audit_log_row r))

  unfoldable pub create_strategy_run : StrategyRunRecord F → Action W (Unit {0})
  create_strategy_run r = db.insert (Entity.strategy_run (strategy_run_row r))

  unfoldable pub create_trade_order : TradeOrderRecord F → Action W (Unit {0})
  create_trade_order r = db.insert (Entity.trade_order (trade_order_row r))

  -- The object is new, or the columns of the row that was found are assigned.
  unfoldable pub store_position :
      PositionRecord F → Option (Stored (Position F)) → Action W (Unit {0})
  unfolding position_row
  store_position r none = db.insert (Entity.position (position_row r))
  store_position r (some row) =
      db.update_position row.id (record (position_row r) { symbol = row.columns.symbol })

  unfoldable pub upsert_position : PositionRecord F → Action W (Unit {0})
  unfolding one_or_none has_symbol store_position
  upsert_position r = do
    tables ← db.select
    found ← lift (one_or_none (filter (has_symbol r.symbol) tables.positions))
    store_position r found

  unfoldable pub create_reconciliation_run : ReconciliationRunRecord F → Action W (Unit {0})
  create_reconciliation_run r = db.insert (Entity.reconciliation_run (reconciliation_run_row r))

  -- `UserRepository`; `username` is unique in the table.
  unfoldable pub get_by_username : String → Action W (Option (Stored User))
  unfolding one_or_none
  get_by_username username = do
    tables ← db.select
    lift (one_or_none (filter (λ row. str_eq row.columns.username username) tables.users))

  -- `create_user` with its default `is_active=True`. `refresh` reads the row again; what the method
  -- returns is not used.
  unfoldable pub create_user : String → String → String → Action W (Unit {0})
  create_user username password_hash role = do
    db.insert (
        Entity.user (record {
          username = username;
          password_hash = password_hash;
          role = role;
          is_active = true;
        }))
    tables ← db.select
    pure tt
