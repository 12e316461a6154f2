-- ===== src/Tests/Startup.antt =====
-- The start of the application, on an empty database and again on what it leaves there.
-- Every password hash is written as one text: the tests do not log in with it.
use day_trade_intellegence.Bootstrap.{
  Migrations, bootstrap_or_skip, create_if_none, create_local_user, ensure_local_user,
  ensure_local_users, has_trading_records, initialize_database_schema, insert_demo_data,
  seed_demo_data, seed_trading_data,
}
use day_trade_intellegence.Bootstrap.Seeded.{local_usernames, seed_demo_data_idle}
use day_trade_intellegence.Bootstrap.Twice.{seed_demo_data_twice}
use day_trade_intellegence.Core.Action.{Result, err, ok}
use day_trade_intellegence.Core.Errors.{Error}
use day_trade_intellegence.Core.Float.Fixed.{fixed}
use day_trade_intellegence.Db.Models.{add_row}
use day_trade_intellegence.Prelude.{
  Bool, IsAmong, List, String, arith, false, inl, inr, length, lower, lower_is, refl, same_codes,
  true, ℕ, ◌≡◌,
}
use day_trade_intellegence.Repositories.{
  create_audit_log, create_reconciliation_run, create_strategy_run, create_trade_order, create_user,
  get_by_username, has_symbol, one_or_none, position_row, store_position, upsert_position,
}
use day_trade_intellegence.Security.Access.Lookup.{rows_of}
use day_trade_intellegence.Security.Passwords.{hash_password}
use day_trade_intellegence.Services.Market.{is_local_mode}
use day_trade_intellegence.Tests.Security.{sim_crypto}
use day_trade_intellegence.Tests.Simulation.{
  Sim, settings, sim_db, sim_db-IsReliable, sim_db-IsTransactional, start,
}

abbrev hidden : List ℕ → String
hidden salted = "5a1t$hash"

abbrev first_start : Result Bool × Sim
first_start = seed_demo_data sim_crypto hidden settings sim_db start

abbrev started : Sim
started = first_start.1

startup : Unit {0}
unfolding seed_demo_data ensure_local_users ensure_local_user create_if_none create_local_user
    get_by_username one_or_none create_user hash_password seed_trading_data has_trading_records
    insert_demo_data create_audit_log create_strategy_run create_trade_order upsert_position
    create_reconciliation_run add_row position_row store_position has_symbol
    initialize_database_schema bootstrap_or_skip is_local_mode lower_is lower same_codes
startup = tt

first_start_seeds : first_start.0 ≡ ok true
unfolding startup
first_start_seeds = refl

rows_started :
    (length started.database.users ≡ 3)
    × (length started.database.trade_orders ≡ 1)
    × (length started.database.positions ≡ 1)
unfolding startup
rows_started = (refl, refl, refl)

users_started :
    (username : String)
    → IsAmong username local_usernames
    → length (rows_of sim_db started.database username) ≡ 1
unfolding startup
users_started username (inl e) = rw e refl
users_started username (inr (inl e)) = rw e refl
users_started username (inr (inr (inl e))) = rw e refl
users_started username (inr (inr (inr none_left))) = elim none_left [ ]

seed_demo_data_idle_example :
    ((seed_demo_data sim_crypto hidden settings sim_db started).0 ≡ ok false)
    × ((seed_demo_data sim_crypto hidden settings sim_db started).1.database ≡ started.database)
seed_demo_data_idle_example =
    seed_demo_data_idle sim_crypto hidden settings sim_db sim_db-IsTransactional sim_db-IsReliable
      started users_started (λ e. omega (arith, rows_started.1))

abbrev no_alembic : Migrations Sim
no_alembic = record {
  available = false;
  upgrade_head = λ s. (ok tt, s);
  create_all = λ s. (ok tt, s);
}

schema_test :
    ((initialize_database_schema settings no_alembic start).0 ≡ ok "metadata")
    × ((initialize_database_schema
          (record settings { bootstrap_schema = false })
          no_alembic
          start).0
        ≡ ok "skipped")
    × ((initialize_database_schema
          (record settings { run_migrations_on_start = true })
          no_alembic
          start).0
        ≡ err (
            Error.configuration_error
              "RUN_MIGRATIONS_ON_START is enabled, but Alembic is unavailable."))
unfolding startup
schema_test = (refl, refl, refl)

seed_demo_data_twice_example :
    ((seeded : Bool) × ((seed_demo_data sim_crypto hidden settings sim_db start).0 ≡ ok seeded))
    × ((seed_demo_data sim_crypto hidden settings sim_db started).0 ≡ ok false)
    × ((seed_demo_data sim_crypto hidden settings sim_db started).1.database ≡ started.database)
seed_demo_data_twice_example =
    seed_demo_data_twice sim_crypto hidden settings sim_db sim_db-IsTransactional sim_db-IsReliable
      (λ w. refl) start (λ username. omega arith)
