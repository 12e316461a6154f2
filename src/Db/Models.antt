-- ===== src/Db/Models.antt =====
-- app/db/models.py: a row of each table. The columns `id` and `created_at` (`updated_at` of a
-- position), which the database fills in, stand in `Stored`.
use day_trade_intellegence.Prelude.{ℕ, String, Bool, Option, List, [], ◌∷◌, ◌++◌}
use day_trade_intellegence.Domain.Json.{Metadata}

pub record User : Type 0 where
  pub username : String
  pub password_hash : String
  pub role : String
  pub is_active : Bool

pub record TradeAuditLog (F : Type 0) : Type 0 where
  pub symbol : String
  pub status : String
  pub detail : String
  pub metadata_json : Metadata F

pub record StrategyRun (F : Type 0) : Type 0 where
  pub symbol : String
  pub timeframe : String
  pub short_window : ℕ
  pub long_window : ℕ
  pub action : String
  pub confidence : F
  pub reason : String
  pub metadata_json : Metadata F

pub record TradeOrder (F : Type 0) : Type 0 where
  pub symbol : String
  pub action : String
  pub quantity : ℕ
  pub status : String
  pub requested_price : F
  pub broker_order_id : Option String
  pub dry_run : Bool
  pub metadata_json : Metadata F

pub record Position (F : Type 0) : Type 0 where
  pub symbol : String
  pub side : String
  pub quantity : ℕ
  pub average_price : F
  pub metadata_json : Metadata F

pub record ReconciliationRun (F : Type 0) : Type 0 where
  pub status : String
  pub source : String
  pub checked_symbols : ℕ
  pub mismatched_symbols : ℕ
  pub detail : String
  pub metadata_json : Metadata F

-- A committed row: its key, the time that the database gave it, and its other columns.
pub record Stored (A : Type 0) : Type 0 where
  pub id : ℕ
  pub stamp : ℕ
  pub columns : A

-- A new object that a repository adds to its session.
pub data Entity (F : Type 0) : Type 0 where
  user : User → Entity F
  trade_audit_log : TradeAuditLog F → Entity F
  strategy_run : StrategyRun F → Entity F
  trade_order : TradeOrder F → Entity F
  position : Position F → Entity F
  reconciliation_run : ReconciliationRun F → Entity F

-- What the database holds, each table in the order of its keys.
pub record Tables (F : Type 0) : Type 0 where
  pub users : List (Stored User)
  pub trade_audit_logs : List (Stored (TradeAuditLog F))
  pub strategy_runs : List (Stored (StrategyRun F))
  pub trade_orders : List (Stored (TradeOrder F))
  pub positions : List (Stored (Position F))
  pub reconciliation_runs : List (Stored (ReconciliationRun F))

abbrev stored : {A : Type 0} → ℕ → ℕ → A → List (Stored A)
stored i t a = record { id = i; stamp = t; columns = a } ∷ []

-- The tables after one more row with key `i`, written at time `t`.
unfoldable pub add_row : {F : Type 0} → ℕ → ℕ → Entity F → Tables F → Tables F
add_row i t (Entity.user r) d = record d { users = d.users ++ stored i t r }
add_row i t (Entity.trade_audit_log r) d = record d {
  trade_audit_logs = d.trade_audit_logs ++ stored i t r;
}
add_row i t (Entity.strategy_run r) d = record d { strategy_runs = d.strategy_runs ++ stored i t r }
add_row i t (Entity.trade_order r) d = record d { trade_orders = d.trade_orders ++ stored i t r }
add_row i t (Entity.position r) d = record d { positions = d.positions ++ stored i t r }
add_row i t (Entity.reconciliation_run r) d = record d {
  reconciliation_runs = d.reconciliation_runs ++ stored i t r;
}
