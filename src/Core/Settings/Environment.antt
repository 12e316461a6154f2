-- ===== src/Core/Settings/Environment.antt =====
-- app/core/settings.py: `Settings()`, where pydantic-settings looks up each field by its alias and reads
-- its text. `get_settings` keeps what this gives for the life of the process.
use day_trade_intellegence.Bootstrap.{seed_demo_data}
use day_trade_intellegence.Core.Action.{Action, Result, err, lift, ok, pure, ◌>>=◌}
use day_trade_intellegence.Core.Errors.{Error}
use day_trade_intellegence.Core.Float.{Float}
use day_trade_intellegence.Core.Settings.{Settings}
use day_trade_intellegence.Prelude.{Bool, Option, String, false, inl, inr, none, some, true, ℕ, ◌⊎◌}

-- pydantic-settings: a variable of the environment, or else an entry of the file `.env`; and how
-- pydantic reads a number and a Boolean, with the message of its refusal. A negative integer is left
-- out, since no field means one.
pub record Environment (F : Type 0) : Type 0 where
  pub lookup : String → Option String
  pub read_int : String → ℕ ⊎ String
  pub read_float : String → F ⊎ String
  pub read_bool : String → Bool ⊎ String

module _ {A : Type 0} where
  -- A value, or the refusal. The exception names every field that is refused; here it is the first.
  unfoldable pub validated : A ⊎ String → Result A
  validated (inl value) = ok value
  validated (inr refusal) = err (Error.other "ValidationError" refusal)

  -- `Field(default=…, alias=…)`
  unfoldable pub field : (String → A ⊎ String) → A → Option String → Result A
  unfolding validated
  field read default none = ok default
  field read default (some text) = validated (read text)

module _ {F : Type 0} (env : Environment F) where
  -- a text is taken as it is
  abbrev text_field : String → String → String
  text_field alias default = elim (env.lookup alias) [ none ↦ default | some text ↦ text ]

module _ {F W : Type 0} ⦃fl : Float F⦄ (env : Environment F) where
  abbrev int_field : String → ℕ → Action W ℕ
  int_field alias default = lift (field env.read_int default (env.lookup alias))

  abbrev float_field : String → F → Action W F
  float_field alias default = lift (field env.read_float default (env.lookup alias))

  abbrev bool_field : String → Bool → Action W Bool
  bool_field alias default = lift (field env.read_bool default (env.lookup alias))

  unfoldable pub get_settings : Action W (Settings F)
  unfolding field
  get_settings = do
    ibkr_port ← int_field "IBKR_PORT" 7497
    ibkr_client_id ← int_field "IBKR_CLIENT_ID" 1
    max_capital_at_risk_pct ← float_field "MAX_CAPITAL_AT_RISK_PCT" (fl.lit 2 2)
    max_drawdown_pct ← float_field "MAX_DRAWDOWN_PCT" (fl.lit 10 2)
    default_stop_loss_pct ← float_field "DEFAULT_STOP_LOSS_PCT" (fl.lit 1 2)
    paper_account_equity ← float_field "PAPER_ACCOUNT_EQUITY" (fl.lit 1000000 1)
    paper_buying_power ← float_field "PAPER_BUYING_POWER" (fl.lit 2500000 1)
    seed_demo_data ← bool_field "SEED_DEMO_DATA" true
    bootstrap_schema ← bool_field "BOOTSTRAP_SCHEMA" true
    run_migrations_on_start ← bool_field "RUN_MIGRATIONS_ON_START" false
    auth_token_exp_minutes ← int_field "AUTH_TOKEN_EXP_MINUTES" 480
    pure (record {
      app_name = text_field env "APP_NAME" "Day Trade Intelligence";
      environment = text_field env "ENVIRONMENT" "development";
      log_level = text_field env "LOG_LEVEL" "INFO";
      api_prefix = text_field env "API_PREFIX" "/api/v1";
      alpaca_api_key = text_field env "ALPACA_API_KEY" "";
      alpaca_secret_key = text_field env "ALPACA_SECRET_KEY" "";
      alpaca_data_feed = text_field env "ALPACA_DATA_FEED" "iex";
      ibkr_host = text_field env "IBKR_HOST" "127.0.0.1";
      ibkr_port = ibkr_port;
      ibkr_client_id = ibkr_client_id;
      database_url = text_field env "DATABASE_URL" "sqlite:///./day_trade_intelligence.db";
      redis_url = text_field env "REDIS_URL" "redis://localhost:6379/0";
      max_capital_at_risk_pct = max_capital_at_risk_pct;
      max_drawdown_pct = max_drawdown_pct;
      default_stop_loss_pct = default_stop_loss_pct;
      paper_account_equity = paper_account_equity;
      paper_buying_power = paper_buying_power;
      seed_demo_data = seed_demo_data;
      bootstrap_schema = bootstrap_schema;
      run_migrations_on_start = run_migrations_on_start;
      trader_api_key = text_field env "TRADER_API_KEY" "trader-local-key";
      operator_api_key = text_field env "OPERATOR_API_KEY" "operator-local-key";
      admin_api_key = text_field env "ADMIN_API_KEY" "admin-local-key";
      auth_secret_key = text_field env "AUTH_SECRET_KEY" "change-this-local-auth-secret";
      auth_token_exp_minutes = auth_token_exp_minutes;
    })
