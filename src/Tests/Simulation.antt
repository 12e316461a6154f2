-- ===== src/Tests/Simulation.antt =====
-- A world to run the model in: a database, a broker and a market in memory.
use day_trade_intellegence.Core.Action.{ok}
use day_trade_intellegence.Core.Float.Fixed.{fixed, ℤ}
use day_trade_intellegence.Core.Settings.{Settings}
use day_trade_intellegence.Db.Models.{Tables, add_row}
use day_trade_intellegence.Db.Session.{IsReliable, IsTransactional, Session, with_position}
use day_trade_intellegence.Domain.Json.{Metadata}
use day_trade_intellegence.Domain.Portfolio.{BrokerPositionSnapshot, PortfolioSnapshot}
use day_trade_intellegence.Domain.Trading.{
  MarketBar, PositionRead, PositionRecord, PositionSide, TradeSignalRequest,
}
use day_trade_intellegence.External.{Broker, BrokerOrder, External, IsSeparated, order}
use day_trade_intellegence.Prelude.{
  Bool, List, String, [], arith, false, refl, some, true, ℕ, ◌++◌, ◌+◌, ◌∷◌,
}
use day_trade_intellegence.Repositories.Positions.{held}
use day_trade_intellegence.Repositories.Queries.{Sql}

abbrev pub no_tables : Tables ℤ
no_tables = record {
  users = [];
  trade_audit_logs = [];
  strategy_runs = [];
  trade_orders = [];
  positions = [];
  reconciliation_runs = [];
}

-- The database, the orders that the broker has accepted, the connection to it, and the number of
-- sessions that are open.
pub record Sim : Type 0 where
  pub database : Tables ℤ
  pub next : ℕ
  pub orders : List BrokerOrder
  pub connected : Bool
  pub sessions : ℕ

abbrev pub sim_db : Session ℤ Sim
sim_db = record {
  insert =
      λ e s. (ok tt, record s { database = add_row s.next 1000 e s.database; next = s.next + 1 });
  update_position = λ i p s. (ok tt, record s { database = with_position i 1000 p s.database });
  select = λ s. (ok s.database, s);
  tables = λ s. s.database;
  next_id = λ s. s.next;
  now = λ s. 1000;
}

abbrev pub sim_ib : List (String × String) → List (BrokerPositionSnapshot ℤ) → Broker ℤ Sim
sim_ib account held = record {
  available = true;
  create = λ s. record s { connected = false };
  connect = λ h p c s. (ok tt, record s { connected = true });
  place_order = λ symbol action quantity s.
      (ok "77", record s { orders = s.orders ++ order symbol action quantity });
  account_summary = λ s. (ok account, s);
  positions = λ s. (ok held, s);
  is_connected = λ s. s.connected;
  disconnect = λ s. record s { connected = false };
  accepted = λ s. s.orders;
}

abbrev pub sim :
    List (String × String) → List (BrokerPositionSnapshot ℤ) → List (MarketBar ℤ) → External ℤ Sim
sim account held bars = record {
  db = sim_db;
  ib = sim_ib account held;
  alpaca = record { available = true; get_stock_bars = λ k t s n f w. (ok (some bars), w) };
  python = record { now = λ s. 1000000; isoformat = λ t. ""; upper = λ s. s };
}

pub sim-IsSeparated :
    (account : List (String × String)) (held : List (BrokerPositionSnapshot ℤ))
    (bars : List (MarketBar ℤ))
    → IsSeparated (sim account held bars)
sim-IsSeparated account held bars = record {
  place_ok = λ symbol action quantity w id e. refl;
  place_err = λ symbol action quantity w e x. cc;
  create_accepted = λ w. refl;
  connect_accepted = λ h p c w. refl;
  summary_accepted = λ w. refl;
  positions_accepted = λ w. refl;
  disconnect_accepted = λ w. refl;
  bars_accepted = λ k t s n f w. refl;
  insert_accepted = λ e w. refl;
  update_accepted = λ i p w. refl;
  select_accepted = λ w. refl;
  create_tables = λ w. refl;
  connect_tables = λ h p c w. refl;
  place_tables = λ symbol action quantity w. refl;
  summary_tables = λ w. refl;
  positions_tables = λ w. refl;
  disconnect_tables = λ w. refl;
  bars_tables = λ k t s n f w. refl;
}

pub sim_db-IsTransactional : IsTransactional sim_db
sim_db-IsTransactional = record {
  insert_ok = λ e w h. refl;
  insert_err = λ e w x h. cc;
  update_ok = λ i p w h. refl;
  update_err = λ i p w x h. cc;
  select_ok = λ w d h. ground arith;
  select_reads = λ w. refl;
}

pub sim_db-IsReliable : IsReliable sim_db
sim_db-IsReliable = record { inserts = λ e w. refl; updates = λ i p w. refl; selects = λ w. refl }

-- Rows come in the order of their keys.
abbrev pub sim_sql : Sql ℤ
sim_sql = record { by_created_at_desc = λ limit offset rows. rows; by_symbol = λ rows. rows }

abbrev pub settings : Settings ℤ
settings = record {
  app_name = "Day Trade Intelligence";
  environment = "Development";
  log_level = "INFO";
  api_prefix = "/api/v1";
  alpaca_api_key = "key";
  alpaca_secret_key = "secret";
  alpaca_data_feed = "iex";
  ibkr_host = "127.0.0.1";
  ibkr_port = 7497;
  ibkr_client_id = 1;
  database_url = "sqlite:///./day_trade_intelligence.db";
  redis_url = "redis://localhost:6379/0";
  max_capital_at_risk_pct = ℤ.pos 200;
  max_drawdown_pct = ℤ.pos 1000;
  default_stop_loss_pct = ℤ.pos 100;
  paper_account_equity = ℤ.pos 1000000000;
  paper_buying_power = ℤ.pos 2500000000;
  seed_demo_data = true;
  bootstrap_schema = true;
  run_migrations_on_start = false;
  trader_api_key = "trader-local-key";
  operator_api_key = "operator-local-key";
  admin_api_key = "admin-local-key";
  auth_secret_key = "change-this-local-auth-secret";
  auth_token_exp_minutes = 480;
}

abbrev pub start : Sim
start = record { database = no_tables; next = 1; orders = []; connected = false; sessions = 0 }

abbrev pub rising_bars : List (MarketBar ℤ)
rising_bars =
    record { close = ℤ.pos 1000000; timestamp = "09:30" }
    ∷ record { close = ℤ.pos 1010000; timestamp = "09:31" }
    ∷ record { close = ℤ.pos 1020000; timestamp = "09:32" }
    ∷ record { close = ℤ.pos 1030000; timestamp = "09:33" }
    ∷ []

abbrev pub funded : List (String × String)
funded = ("NetLiquidation", "100000") ∷ ("AvailableFunds", "90000") ∷ []

abbrev pub live_market : External ℤ Sim
live_market = sim funded [] rising_bars

abbrev pub broke : List (String × String)
broke = ("NetLiquidation", "0") ∷ []

abbrev pub broke_market : External ℤ Sim
broke_market = sim broke [] rising_bars

-- One position that the broker holds, and the internal row of the same symbol.
abbrev pub held_by_broker : ℤ → BrokerPositionSnapshot ℤ
held_by_broker quantity = record {
  symbol = "AAPL";
  quantity = quantity;
  market_price = ℤ.pos 1000000;
  market_value = ℤ.pos 1000000;
  average_cost = ℤ.pos 1000000;
}

abbrev pub held_here : PositionRead ℤ
held_here = record {
  id = 1;
  symbol = "AAPL";
  side = "LONG";
  quantity = 3;
  average_price = ℤ.pos 1000000;
  metadata = Metadata.empty;
  updated_at = 1000;
}

abbrev pub account_with : List (BrokerPositionSnapshot ℤ) → PortfolioSnapshot ℤ
account_with positions = record {
  account_id = "1";
  source = "ibkr";
  net_liquidation = ℤ.pos 1000000000;
  available_funds = ℤ.pos 0;
  buying_power = ℤ.pos 0;
  drawdown_pct = ℤ.pos 0;
  positions = positions;
  as_of = 1000;
}

abbrev pub bought : PositionRecord ℤ
bought = record {
  symbol = "AAPL";
  side = PositionSide.long;
  quantity = 3;
  average_price = ℤ.pos 1000000;
  metadata = Metadata.empty;
}

-- A world with one position in the database.
abbrev pub with_one_position : Sim
with_one_position = record start {
  database = record no_tables {
    positions =
        record {
          id = 1;
          stamp = 900;
          columns = record {
            symbol = "AAPL";
            side = "SHORT";
            quantity = 5;
            average_price = ℤ.pos 900000;
            metadata_json = Metadata.empty;
          };
        }
        ∷ [];
  };
}

abbrev pub buy_request : Bool → TradeSignalRequest
buy_request dry_run = record {
  symbol = "AAPL";
  timeframe = "1Min";
  short_window = 2;
  long_window = 4;
  quantity = 1;
  dry_run = dry_run;
}
