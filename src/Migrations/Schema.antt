-- ===== src/Migrations/Schema.antt =====
-- Tables as a database has them, and those that the models of app/db/models.py declare.
use Prim.Native.String.{◌++◌ as ◌<>◌}
use day_trade_intellegence.Prelude.{
  Bool, List, Option, String, [], false, if◌then◌else◌, map, none, some, true, ℕ, ◌∷◌,
}

pub data ColumnType : Type 0 where
  integer real boolean json timestamp : ColumnType
  -- `String(length)`
  text : ℕ → ColumnType

pub record Column : Type 0 where
  pub name : String
  pub kind : ColumnType
  pub primary_key : Bool
  pub nullable : Bool
  pub server_default : Option String

pub record TableIndex : Type 0 where
  pub name : String
  pub columns : List String
  pub unique : Bool

pub record Table : Type 0 where
  pub name : String
  pub columns : List Column
  pub unique_constraints : List (List String)
  pub indexes : List TableIndex

-- One `Column(…)` of a model, `index` and `unique` included.
pub record ModelColumn : Type 0 where
  pub column : Column
  pub index : Bool
  pub unique : Bool

abbrev plain : String → ColumnType → ModelColumn
plain name kind = record {
  column = record {
    name = name;
    kind = kind;
    primary_key = false;
    nullable = false;
    server_default = none;
  };
  index = false;
  unique = false;
}

abbrev indexed : ModelColumn → ModelColumn
indexed c = record c { index = true }

-- `id = Column(Integer, primary_key=True, index=True)`
abbrev key : ModelColumn
key = record (indexed (plain "id" ColumnType.integer)) {
  column = record (plain "id" ColumnType.integer).column { primary_key = true };
}

-- `Column(DateTime(timezone=True), nullable=False, server_default=func.now())`
abbrev stamped : String → ModelColumn
stamped name = record (plain name ColumnType.timestamp) {
  column = record (plain name ColumnType.timestamp).column { server_default = some "now()" };
}

-- The indexes of the columns with `index=True`, under SQLAlchemy's names.
abbrev index_list : String → List ModelColumn → List TableIndex
index_list table [] = []
index_list table (c ∷ cs) =
    let rest = index_list table cs in
    if c.index
    then record {
      name = (("ix_" <> table) <> "_") <> c.column.name;
      columns = c.column.name ∷ [];
      unique = c.unique;
    }
      ∷ rest
    else rest

unfoldable pub table_of : String → List ModelColumn → Table
table_of name columns = record {
  name = name;
  columns = map (λ c. c.column) columns;
  unique_constraints = [];
  indexes = index_list name columns;
}

unfoldable pub user_table : Table
unfolding table_of
user_table = table_of "users" (
    key
    ∷ record (indexed (plain "username" (ColumnType.text 64))) { unique = true }
    ∷ plain "password_hash" (ColumnType.text 256)
    ∷ indexed (plain "role" (ColumnType.text 32))
    ∷ plain "is_active" ColumnType.boolean
    ∷ stamped "created_at"
    ∷ [])

unfoldable pub trade_audit_log_table : Table
unfolding table_of
trade_audit_log_table = table_of "trade_audit_logs" (
    key
    ∷ indexed (plain "symbol" (ColumnType.text 16))
    ∷ indexed (plain "status" (ColumnType.text 64))
    ∷ plain "detail" (ColumnType.text 512)
    ∷ plain "metadata_json" ColumnType.json
    ∷ stamped "created_at"
    ∷ [])

unfoldable pub strategy_run_table : Table
unfolding table_of
strategy_run_table = table_of "strategy_runs" (
    key
    ∷ indexed (plain "symbol" (ColumnType.text 16))
    ∷ plain "timeframe" (ColumnType.text 32)
    ∷ plain "short_window" ColumnType.integer
    ∷ plain "long_window" ColumnType.integer
    ∷ plain "action" (ColumnType.text 16)
    ∷ plain "confidence" ColumnType.real
    ∷ plain "reason" (ColumnType.text 512)
    ∷ plain "metadata_json" ColumnType.json
    ∷ stamped "created_at"
    ∷ [])

unfoldable pub trade_order_table : Table
unfolding table_of
trade_order_table =
    let id = indexed (plain "broker_order_id" (ColumnType.text 64)) in
    table_of "trade_orders" (
      key
      ∷ indexed (plain "symbol" (ColumnType.text 16))
      ∷ plain "action" (ColumnType.text 16)
      ∷ plain "quantity" ColumnType.integer
      ∷ indexed (plain "status" (ColumnType.text 32))
      ∷ plain "requested_price" ColumnType.real
      ∷ record id { column = record id.column { nullable = true } }
      ∷ plain "dry_run" ColumnType.boolean
      ∷ plain "metadata_json" ColumnType.json
      ∷ stamped "created_at"
      ∷ [])

unfoldable pub position_table : Table
unfolding table_of
position_table = table_of "positions" (
    key
    ∷ record (indexed (plain "symbol" (ColumnType.text 16))) { unique = true }
    ∷ plain "side" (ColumnType.text 16)
    ∷ plain "quantity" ColumnType.integer
    ∷ plain "average_price" ColumnType.real
    ∷ plain "metadata_json" ColumnType.json
    ∷ stamped "updated_at"
    ∷ [])

unfoldable pub reconciliation_run_table : Table
unfolding table_of
reconciliation_run_table = table_of "reconciliation_runs" (
    key
    ∷ indexed (plain "status" (ColumnType.text 32))
    ∷ plain "source" (ColumnType.text 32)
    ∷ plain "checked_symbols" ColumnType.integer
    ∷ plain "mismatched_symbols" ColumnType.integer
    ∷ plain "detail" (ColumnType.text 512)
    ∷ plain "metadata_json" ColumnType.json
    ∷ stamped "created_at"
    ∷ [])

-- `Base.metadata`
unfoldable pub metadata_tables : List Table
unfolding user_table trade_audit_log_table strategy_run_table trade_order_table position_table
    reconciliation_run_table
metadata_tables =
    user_table ∷ trade_audit_log_table ∷ strategy_run_table ∷ trade_order_table ∷ position_table
    ∷ reconciliation_run_table ∷ []
