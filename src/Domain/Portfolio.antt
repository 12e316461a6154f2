-- ===== src/Domain/Portfolio.antt =====
-- app/domain/portfolio.py.
use day_trade_intellegence.Prelude.{ℕ, String, List}

pub record BrokerPositionSnapshot (F : Type 0) : Type 0 where
  pub symbol : String
  pub quantity : F
  pub market_price : F
  pub market_value : F
  pub average_cost : F

pub record PortfolioSnapshot (F : Type 0) : Type 0 where
  pub account_id : String
  pub source : String
  pub net_liquidation : F
  pub available_funds : F
  pub buying_power : F
  pub drawdown_pct : F
  pub positions : List (BrokerPositionSnapshot F)
  pub as_of : ℕ
