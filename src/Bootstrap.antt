-- ===== src/Bootstrap.antt =====
-- app/bootstrap.py: what the application does to its database when it starts.
pub mod Seeded
pub mod Steps
pub mod Users
pub mod Twice
pub mod Local
pub mod First
pub mod Frames
use day_trade_intellegence.Core.Action.{Action, pure, raise, ◌>>=◌, ◌>>◌}
use day_trade_intellegence.Core.Errors.{Error}
use day_trade_intellegence.Core.Float.{Float}
use day_trade_intellegence.Core.Settings.{Settings}
use day_trade_intellegence.Db.Models.{Stored, User}
use day_trade_intellegence.Db.Session.{Session}
use day_trade_intellegence.Domain.Json.{Items, Json, Metadata}
use day_trade_intellegence.Domain.Reconciliation.{ReconciliationStatus}
use day_trade_intellegence.Domain.Trading.{
  OrderStatus, PositionRecord, PositionSide, SignalAction, TradeLifecycleStatus,
}
use day_trade_intellegence.Prelude.{
  Bool, List, Option, String, false, if◌then◌else◌, length, ltb, none, not, some, true, ℕ,
}
use day_trade_intellegence.Repositories.{
  create_audit_log, create_reconciliation_run, create_strategy_run, create_trade_order, create_user,
  get_by_username, upsert_position,
}
use day_trade_intellegence.Security.Crypto.{Crypto}
use day_trade_intellegence.Security.Passwords.{hash_password}
use day_trade_intellegence.Services.Market.{is_local_mode}

-- Alembic, which is not part of the repository, and `Base.metadata.create_all`.
pub record Migrations (W : Type 0) : Type 0 where
  pub available : Bool
  pub upgrade_head : Action W (Unit {0})
  pub create_all : Action W (Unit {0})

module _ {F W : Type 0} (settings : Settings F) (migrations : Migrations W) where
  -- the strategy where migrations do not run
  unfoldable pub bootstrap_or_skip : Bool → Action W String
  unfolding ◌>>=◌
  bootstrap_or_skip local_mode =
      if settings.bootstrap_schema
      then migrations.create_all >> pure "metadata"
      else if local_mode
      then pure "skipped"
      else raise (
          Error.configuration_error
            "No startup schema strategy is enabled. Configure migrations or bootstrap for this environment.")

  unfoldable pub initialize_database_schema : Action W String
  unfolding bootstrap_or_skip is_local_mode
  initialize_database_schema =
      if settings.run_migrations_on_start
      then (if not migrations.available
          then raise (
              Error.configuration_error
                "RUN_MIGRATIONS_ON_START is enabled, but Alembic is unavailable.")
          else (migrations.upgrade_head >> pure "migrations"))
      else bootstrap_or_skip (is_local_mode settings.environment)

-- `text` is the `str` that has these ASCII code points.
module _ {F W : Type 0} (crypto : Crypto W) (text : List ℕ → String) (db : Session F W) where
  -- `create_user` with the hash of the password
  unfoldable pub create_local_user : String → String → String → Action W (Unit {0})
  unfolding hash_password create_user
  create_local_user username password role w =
      let (password_hash, w') = hash_password crypto password w in
      create_user db username (text password_hash) role w'

  unfoldable pub create_if_none :
      String → String → String → Option (Stored User) → Action W (Unit {0})
  unfolding create_local_user
  create_if_none username password role none = create_local_user username password role
  create_if_none username password role (some user) = pure tt

  unfoldable pub ensure_local_user : String → String → String → Action W (Unit {0})
  unfolding get_by_username create_if_none
  ensure_local_user username password role = do
    user ← get_by_username db username
    create_if_none username password role user

  unfoldable pub ensure_local_users : Action W (Unit {0})
  unfolding ensure_local_user
  ensure_local_users = do
    _ ← ensure_local_user "trader" "trader123" "TRADER"
    _ ← ensure_local_user "operator" "operator123" "OPERATOR"
    ensure_local_user "admin" "admin123" "ADMIN"

module _ {F : Type 0} ⦃fl : Float F⦄ where
  abbrev seeded : Metadata F
  seeded = Metadata.entry "seeded" (Json.bool true) Metadata.empty

  abbrev pub demo_position : PositionRecord F
  demo_position = record {
    symbol = "AAPL";
    side = PositionSide.long;
    quantity = 10;
    average_price = fl.lit 18942 2;
    metadata = seeded;
  }

module _ {F W : Type 0} ⦃fl : Float F⦄ (db : Session F W) where
  unfoldable pub insert_demo_data : Action W Bool
  unfolding create_audit_log create_strategy_run create_trade_order upsert_position
      create_reconciliation_run
  insert_demo_data = do
    _ ← create_audit_log db (record {
      symbol = "AAPL";
      status = TradeLifecycleStatus.executed;
      detail = "Seeded demo trade executed successfully.";
      metadata = seeded;
    })
    _ ← create_strategy_run db (record {
      symbol = "AAPL";
      timeframe = "1Min";
      short_window = 5;
      long_window = 20;
      action = SignalAction.buy;
      confidence = fl.lit 81 2;
      reason = "Seeded moving-average crossover example.";
      metadata = seeded;
    })
    _ ← create_trade_order db (record {
      symbol = "AAPL";
      action = SignalAction.buy;
      quantity = 10;
      status = OrderStatus.simulated;
      requested_price = fl.lit 18942 2;
      broker_order_id = none;
      dry_run = true;
      metadata = seeded;
    })
    _ ← upsert_position db (record {
      symbol = "AAPL";
      side = PositionSide.long;
      quantity = 10;
      average_price = fl.lit 18942 2;
      metadata = seeded;
    })
    _ ← create_reconciliation_run db (record {
      status = ReconciliationStatus.matched;
      source = "paper";
      checked_symbols = 1;
      mismatched_symbols = 0;
      detail = "Seeded reconciliation example.";
      metadata =
          Metadata.entry "seeded" (Json.bool true)
            (Metadata.entry "items" (Json.list Items.nil) Metadata.empty);
    })
    pure true

  -- `session.query(Position).count() > 0` is asked only where there is no order.
  unfoldable pub has_trading_records : Action W Bool
  unfolding ◌>>=◌
  has_trading_records = do
    orders ← db.select
    if ltb 0 (length orders.trade_orders)
        then pure true
        else do positions ← db.select; pure (ltb 0 (length positions.positions))

  unfoldable pub seed_trading_data : Settings F → Action W Bool
  unfolding insert_demo_data has_trading_records
  seed_trading_data settings =
      if not settings.seed_demo_data
      then pure false
      else do present ← has_trading_records; if present then pure false else insert_demo_data

module _ {F W : Type 0} ⦃fl : Float F⦄ (crypto : Crypto W) (text : List ℕ → String)
    (settings : Settings F) (db : Session F W) where
  unfoldable pub seed_demo_data : Action W Bool
  unfolding ensure_local_users seed_trading_data
  seed_demo_data = do _ ← ensure_local_users crypto text db; seed_trading_data db settings
