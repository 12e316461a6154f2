-- ===== src/External.antt =====
-- The programs that the services call and that are not part of the repository, each as an interface:
-- Interactive Brokers through `ib_insync`, Alpaca through `alpaca-py`, the clock, the database.
use day_trade_intellegence.Prelude.{ℕ, String, ◌≡◌, ◌⊎◌, Bool, Option, List, ◌∷◌, [], ◌++◌}
use day_trade_intellegence.Core.Errors.{Error}
use day_trade_intellegence.Core.Action.{Action, ok, err}
use day_trade_intellegence.Domain.Trading.{MarketBar}
use day_trade_intellegence.Domain.Portfolio.{BrokerPositionSnapshot}
use day_trade_intellegence.Db.Models.{Entity, Position}
use day_trade_intellegence.Db.Session.{Session}

-- A market order that the broker has accepted.
pub record BrokerOrder : Type 0 where
  pub symbol : String
  pub action : String
  pub quantity : ℕ

abbrev pub order : String → String → ℕ → List BrokerOrder
order symbol action quantity = record { symbol = symbol; action = action; quantity = quantity } ∷ []

-- `ib_insync`. `available` says that the import succeeded.
pub record Broker (F W : Type 0) : Type 0 where
  pub available : Bool
  -- `IB()`
  pub create : W → W
  -- `ib.connect(host, port, clientId=…)`
  pub connect : String → ℕ → ℕ → Action W (Unit {0})
  -- `ib.placeOrder(Stock(symbol, "SMART", "USD"), MarketOrder(action, quantity))`, `ib.sleep(1)`, and
  -- the order's identifier as a text
  pub place_order : String → String → ℕ → Action W String
  -- the tags and values of `ib.accountSummary()`
  pub account_summary : Action W (List (String × String))
  -- `ib.positions()`, each with its attributes read as floats
  pub positions : Action W (List (BrokerPositionSnapshot F))
  pub is_connected : W → Bool
  pub disconnect : W → W
  -- the orders that the broker has accepted so far
  pub accepted : W → List BrokerOrder

-- `alpaca-py`. `none` is a response without the symbol.
pub record MarketApi (F W : Type 0) : Type 0 where
  pub available : Bool
  -- a client for a key and a secret, then a request for `limit` minute bars of a symbol from a feed
  pub get_stock_bars :
      String → String → String → ℕ → String → Action W (Option (List (MarketBar F)))

-- `datetime.now(timezone.utc)` in seconds since 1970, `isoformat`, and the Unicode tables of
-- `str.upper`.
pub record Runtime (W : Type 0) : Type 0 where
  pub now : W → ℕ
  pub isoformat : ℕ → String
  pub upper : String → String

pub record External (F W : Type 0) : Type 0 where
  pub db : Session F W
  pub ib : Broker F W
  pub alpaca : MarketApi F W
  pub python : Runtime W

-- The broker accepts an order when `place_order` returns, may or may not have accepted it when that
-- raises, and accepts none at any other call. Only the session writes to the database.
pub record IsSeparated {F W : Type 0} (x : External F W) : Type 0 where
  pub place_ok :
      (symbol action : String) (quantity : ℕ) (w : W) (id : String)
      → (x.ib.place_order symbol action quantity w).0 ≡ ok id
      → x.ib.accepted (x.ib.place_order symbol action quantity w).1
        ≡ x.ib.accepted w ++ order symbol action quantity
  pub place_err :
      (symbol action : String) (quantity : ℕ) (w : W) (e : Error)
      → (x.ib.place_order symbol action quantity w).0 ≡ err e
      → (x.ib.accepted (x.ib.place_order symbol action quantity w).1 ≡ x.ib.accepted w)
        ⊎ (x.ib.accepted (x.ib.place_order symbol action quantity w).1
            ≡ x.ib.accepted w ++ order symbol action quantity)
  pub create_accepted : (w : W) → x.ib.accepted (x.ib.create w) ≡ x.ib.accepted w
  pub connect_accepted :
      (h : String) (p c : ℕ) (w : W) → x.ib.accepted (x.ib.connect h p c w).1 ≡ x.ib.accepted w
  pub summary_accepted : (w : W) → x.ib.accepted (x.ib.account_summary w).1 ≡ x.ib.accepted w
  pub positions_accepted : (w : W) → x.ib.accepted (x.ib.positions w).1 ≡ x.ib.accepted w
  pub disconnect_accepted : (w : W) → x.ib.accepted (x.ib.disconnect w) ≡ x.ib.accepted w
  pub bars_accepted :
      (k t s : String) (n : ℕ) (f : String) (w : W)
      → x.ib.accepted (x.alpaca.get_stock_bars k t s n f w).1 ≡ x.ib.accepted w
  pub insert_accepted : (e : Entity F) (w : W) → x.ib.accepted (x.db.insert e w).1 ≡ x.ib.accepted w
  pub update_accepted :
      (i : ℕ) (p : Position F) (w : W)
      → x.ib.accepted (x.db.update_position i p w).1 ≡ x.ib.accepted w
  pub select_accepted : (w : W) → x.ib.accepted (x.db.select w).1 ≡ x.ib.accepted w
  pub create_tables : (w : W) → x.db.tables (x.ib.create w) ≡ x.db.tables w
  pub connect_tables :
      (h : String) (p c : ℕ) (w : W) → x.db.tables (x.ib.connect h p c w).1 ≡ x.db.tables w
  pub place_tables :
      (symbol action : String) (quantity : ℕ) (w : W)
      → x.db.tables (x.ib.place_order symbol action quantity w).1 ≡ x.db.tables w
  pub summary_tables : (w : W) → x.db.tables (x.ib.account_summary w).1 ≡ x.db.tables w
  pub positions_tables : (w : W) → x.db.tables (x.ib.positions w).1 ≡ x.db.tables w
  pub disconnect_tables : (w : W) → x.db.tables (x.ib.disconnect w) ≡ x.db.tables w
  pub bars_tables :
      (k t s : String) (n : ℕ) (f : String) (w : W)
      → x.db.tables (x.alpaca.get_stock_bars k t s n f w).1 ≡ x.db.tables w
