-- ===== src/Repositories/Queries.antt =====
-- The `list_…` methods of app/repositories. `ORDER BY` is the database's: an argument that sorts.
use day_trade_intellegence.Prelude.{
  ℕ, String, Option, none, some, List, str_eq, if◌then◌else◌, is_empty, filter, length, take, drop,
}
use day_trade_intellegence.Core.Action.{Action, pure, ◌>>=◌}
use day_trade_intellegence.Db.Models.{
  Stored, TradeAuditLog, StrategyRun, TradeOrder, Position, ReconciliationRun,
}
use day_trade_intellegence.Db.Session.{Session}

-- `ORDER BY created_at DESC` of any table, and `ORDER BY symbol` of the positions. For rows that were
-- created at the same time the database promises no order that two queries share: the first depends on
-- the limit and the offset of the query.
pub record Sql (F : Type 0) : Type 1 where
  pub by_created_at_desc : {A : Type 0} → ℕ → ℕ → List (Stored A) → List (Stored A)
  pub by_symbol : List (Stored (Position F)) → List (Stored (Position F))

-- `if symbol: query.filter(… == symbol)`: neither `None` nor the empty text filters.
unfoldable pub symbol_filter :
    {A : Type 0} → (A → String) → Option String → List (Stored A) → List (Stored A)
symbol_filter symbol_of none rows = rows
symbol_filter symbol_of (some symbol) rows =
    if is_empty symbol then rows else filter (λ r. str_eq (symbol_of r.columns) symbol) rows

module _ {F : Type 0} (sql : Sql F) where
  -- `query.count()`, and the rows of `order_by(desc(created_at)).offset(offset).limit(limit)`
  unfoldable pub paginate : {A : Type 0} → List (Stored A) → ℕ → ℕ → ℕ × List (Stored A)
  paginate rows limit offset =
      (length rows, take limit (drop offset (sql.by_created_at_desc limit offset rows)))

module _ {F W : Type 0} (sql : Sql F) (db : Session F W) where
  unfoldable pub list_audit_logs :
      Option String → ℕ → ℕ → Action W (ℕ × List (Stored (TradeAuditLog F)))
  unfolding symbol_filter paginate
  list_audit_logs symbol limit offset = do
    tables ← db.select
    pure (paginate sql (symbol_filter (λ r. r.symbol) symbol tables.trade_audit_logs) limit offset)

  unfoldable pub list_strategy_runs :
      Option String → ℕ → ℕ → Action W (ℕ × List (Stored (StrategyRun F)))
  unfolding symbol_filter paginate
  list_strategy_runs symbol limit offset = do
    tables ← db.select
    pure (paginate sql (symbol_filter (λ r. r.symbol) symbol tables.strategy_runs) limit offset)

  unfoldable pub list_trade_orders :
      Option String → ℕ → ℕ → Action W (ℕ × List (Stored (TradeOrder F)))
  unfolding symbol_filter paginate
  list_trade_orders symbol limit offset = do
    tables ← db.select
    pure (paginate sql (symbol_filter (λ r. r.symbol) symbol tables.trade_orders) limit offset)

  unfoldable pub list_reconciliation_runs :
      ℕ → ℕ → Action W (ℕ × List (Stored (ReconciliationRun F)))
  unfolding paginate
  list_reconciliation_runs limit offset = do
    tables ← db.select
    pure (paginate sql tables.reconciliation_runs limit offset)

  unfoldable pub list_positions : Option String → Action W (ℕ × List (Stored (Position F)))
  unfolding symbol_filter
  list_positions symbol = do
    tables ← db.select
    let items = sql.by_symbol (symbol_filter (λ r. r.symbol) symbol tables.positions)
    pure (length items, items)
