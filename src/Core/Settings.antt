-- ===== src/Core/Settings.antt =====
-- app/core/settings.py: the fields of `Settings`.
pub mod Environment
use day_trade_intellegence.Prelude.{ℕ, String, Bool}

pub record Settings (F : Type 0) : Type 0 where
  pub app_name : String
  pub environment : String
  pub log_level : String
  pub api_prefix : String
  pub alpaca_api_key : String
  pub alpaca_secret_key : String
  pub alpaca_data_feed : String
  pub ibkr_host : String
  pub ibkr_port : ℕ
  pub ibkr_client_id : ℕ
  pub database_url : String
  pub redis_url : String
  pub max_capital_at_risk_pct : F
  pub max_drawdown_pct : F
  pub default_stop_loss_pct : F
  pub paper_account_equity : F
  pub paper_buying_power : F
  pub seed_demo_data : Bool
  pub bootstrap_schema : Bool
  pub run_migrations_on_start : Bool
  pub trader_api_key : String
  pub operator_api_key : String
  pub admin_api_key : String
  pub auth_secret_key : String
  pub auth_token_exp_minutes : ℕ
