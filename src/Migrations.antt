-- ===== src/Migrations.antt =====
-- alembic/versions: the two migrations, over the operations of Alembic, which are an interface.
pub mod Schema
pub mod Effects
pub mod Upgrade
use day_trade_intellegence.Core.Action.{Action, ◌>>=◌, ◌>>◌}
use day_trade_intellegence.Migrations.Schema.{Column, ColumnType, Table}
use day_trade_intellegence.Prelude.{Bool, List, String, [], false, none, some, true, ◌∷◌}

-- `alembic.op`
pub record Ddl (W : Type 0) : Type 0 where
  -- a table with its columns and its unique constraints
  pub create_table : String → List Column → List (List String) → Action W (Unit {0})
  -- the index's name, its table, its columns, and whether it is unique
  pub create_index : String → String → List String → Bool → Action W (Unit {0})
  -- the index's name and its table
  pub drop_index : String → String → Action W (Unit {0})
  pub drop_table : String → Action W (Unit {0})
  -- the tables that the database has
  pub schema : W → List Table

-- `sa.Column("id", sa.Integer(), primary_key=True)`
abbrev id_column : Column
id_column = record {
  name = "id";
  kind = ColumnType.integer;
  primary_key = true;
  nullable = false;
  server_default = none;
}

-- `sa.Column(name, kind, nullable=False)`
abbrev required_column : String → ColumnType → Column
required_column name kind = record {
  name = name;
  kind = kind;
  primary_key = false;
  nullable = false;
  server_default = none;
}

-- `sa.Column(name, sa.DateTime(timezone=True), server_default=sa.func.now(), nullable=False)`
abbrev time_column : String → Column
time_column name = record (required_column name ColumnType.timestamp) {
  server_default = some "now()";
}

-- The columns of each `op.create_table`.
abbrev pub audit_log_columns : List Column
audit_log_columns =
    id_column
    ∷ required_column "symbol" (ColumnType.text 16)
    ∷ required_column "status" (ColumnType.text 64)
    ∷ required_column "detail" (ColumnType.text 512)
    ∷ required_column "metadata_json" ColumnType.json
    ∷ time_column "created_at"
    ∷ []

abbrev pub strategy_run_columns : List Column
strategy_run_columns =
    id_column
    ∷ required_column "symbol" (ColumnType.text 16)
    ∷ required_column "timeframe" (ColumnType.text 32)
    ∷ required_column "short_window" ColumnType.integer
    ∷ required_column "long_window" ColumnType.integer
    ∷ required_column "action" (ColumnType.text 16)
    ∷ required_column "confidence" ColumnType.real
    ∷ required_column "reason" (ColumnType.text 512)
    ∷ required_column "metadata_json" ColumnType.json
    ∷ time_column "created_at"
    ∷ []

abbrev pub trade_order_columns : List Column
trade_order_columns =
    id_column
    ∷ required_column "symbol" (ColumnType.text 16)
    ∷ required_column "action" (ColumnType.text 16)
    ∷ required_column "quantity" ColumnType.integer
    ∷ required_column "status" (ColumnType.text 32)
    ∷ required_column "requested_price" ColumnType.real
    ∷ record (required_column "broker_order_id" (ColumnType.text 64)) { nullable = true }
    ∷ record (required_column "dry_run" ColumnType.boolean) { server_default = some "true" }
    ∷ required_column "metadata_json" ColumnType.json
    ∷ time_column "created_at"
    ∷ []

abbrev pub position_columns : List Column
position_columns =
    id_column
    ∷ required_column "symbol" (ColumnType.text 16)
    ∷ required_column "side" (ColumnType.text 16)
    ∷ required_column "quantity" ColumnType.integer
    ∷ required_column "average_price" ColumnType.real
    ∷ required_column "metadata_json" ColumnType.json
    ∷ time_column "updated_at"
    ∷ []

abbrev pub reconciliation_run_columns : List Column
reconciliation_run_columns =
    id_column
    ∷ required_column "status" (ColumnType.text 32)
    ∷ required_column "source" (ColumnType.text 32)
    ∷ required_column "checked_symbols" ColumnType.integer
    ∷ required_column "mismatched_symbols" ColumnType.integer
    ∷ required_column "detail" (ColumnType.text 512)
    ∷ required_column "metadata_json" ColumnType.json
    ∷ time_column "created_at"
    ∷ []

module _ {W : Type 0} (op : Ddl W) where
  -- 0001_initial_schema.py
  unfoldable pub upgrade_initial : Action W (Unit {0})
  upgrade_initial = do
    op.create_table "trade_audit_logs" audit_log_columns []
    op.create_index "ix_trade_audit_logs_symbol" "trade_audit_logs" ("symbol" ∷ []) false
    op.create_index "ix_trade_audit_logs_status" "trade_audit_logs" ("status" ∷ []) false
    op.create_table "strategy_runs" strategy_run_columns []
    op.create_index "ix_strategy_runs_symbol" "strategy_runs" ("symbol" ∷ []) false
    op.create_table "trade_orders" trade_order_columns []
    op.create_index "ix_trade_orders_symbol" "trade_orders" ("symbol" ∷ []) false
    op.create_index "ix_trade_orders_status" "trade_orders" ("status" ∷ []) false
    op.create_index "ix_trade_orders_broker_order_id" "trade_orders" ("broker_order_id" ∷ []) false
    op.create_table "positions" position_columns (("symbol" ∷ []) ∷ [])
    op.create_index "ix_positions_symbol" "positions" ("symbol" ∷ []) true

  unfoldable pub downgrade_initial : Action W (Unit {0})
  downgrade_initial = do
    op.drop_index "ix_positions_symbol" "positions"
    op.drop_table "positions"
    op.drop_index "ix_trade_orders_broker_order_id" "trade_orders"
    op.drop_index "ix_trade_orders_status" "trade_orders"
    op.drop_index "ix_trade_orders_symbol" "trade_orders"
    op.drop_table "trade_orders"
    op.drop_index "ix_strategy_runs_symbol" "strategy_runs"
    op.drop_table "strategy_runs"
    op.drop_index "ix_trade_audit_logs_status" "trade_audit_logs"
    op.drop_index "ix_trade_audit_logs_symbol" "trade_audit_logs"
    op.drop_table "trade_audit_logs"

  -- 0002_reconciliation_runs.py
  unfoldable pub upgrade_reconciliation : Action W (Unit {0})
  upgrade_reconciliation = do
    op.create_table "reconciliation_runs" reconciliation_run_columns []
    op.create_index "ix_reconciliation_runs_status" "reconciliation_runs" ("status" ∷ []) false

  unfoldable pub downgrade_reconciliation : Action W (Unit {0})
  downgrade_reconciliation = do
    op.drop_index "ix_reconciliation_runs_status" "reconciliation_runs"
    op.drop_table "reconciliation_runs"

  -- `alembic upgrade head` on a new database, and `alembic downgrade base`
  unfoldable pub upgrade_head : Action W (Unit {0})
  unfolding upgrade_initial upgrade_reconciliation
  upgrade_head = upgrade_initial >> upgrade_reconciliation

  unfoldable pub downgrade_base : Action W (Unit {0})
  unfolding downgrade_initial downgrade_reconciliation
  downgrade_base = downgrade_reconciliation >> downgrade_initial
