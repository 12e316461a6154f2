-- ===== src/Services/Operational.antt =====
-- app/services/operational_service.py: the readiness probes. Redis is an interface.
pub mod Readiness
use day_trade_intellegence.Core.Action.{Action, pure, try_except, ◌>>=◌, ◌>>◌}
use day_trade_intellegence.Core.Errors.{message}
use day_trade_intellegence.Core.Settings.{Settings}
use day_trade_intellegence.Db.Factory.{SessionFactory, with_session}
use day_trade_intellegence.Prelude.{
  Bool, Option, String, false, if◌then◌else◌, none, not, some, true, ◌&&◌,
}

pub record RedisApi (W : Type 0) : Type 0 where
  -- whether the import succeeded
  pub available : Bool
  -- `redis.Redis.from_url(url, …)`, then `client.ping()`
  pub ping : String → Action W (Unit {0})

-- What `_check_database` and `_check_redis` return; `detail` is left out of a success.
pub record Probe : Type 0 where
  pub ok_flag : Bool
  pub url : String
  pub detail : Option String

pub record SystemStatus : Type 0 where
  pub app_ok : Bool
  pub environment : String
  pub name : String
  pub database : Probe
  pub redis : Probe
  pub is_ready : Bool
  pub bootstrap_schema : Bool
  pub run_migrations_on_start : Bool
  pub seed_demo_data : Bool

unfoldable pub reachable : String → Probe
reachable url = record { ok_flag = true; url = url; detail = none }

unfoldable pub unreachable : String → String → Probe
unreachable url detail = record { ok_flag = false; url = url; detail = some detail }

module _ {F W : Type 0} (settings : Settings F) (sessions : SessionFactory W)
    (redis : RedisApi W) where
  unfoldable pub check_database : Action W Probe
  unfolding with_session reachable unreachable message
  check_database = with_session sessions (
      try_except (sessions.select_one >> pure (reachable settings.database_url))
        (λ exc. pure (unreachable settings.database_url (message exc))))

  unfoldable pub check_redis : Action W Probe
  unfolding reachable unreachable message
  check_redis =
      if not redis.available
      then pure (unreachable settings.redis_url "redis package unavailable")
      else try_except (redis.ping settings.redis_url >> pure (reachable settings.redis_url))
          (λ exc. pure (unreachable settings.redis_url (message exc)))

  unfoldable pub system_status : Probe → Probe → SystemStatus
  system_status db_status redis_status = record {
    app_ok = true;
    environment = settings.environment;
    name = settings.app_name;
    database = db_status;
    redis = redis_status;
    is_ready = db_status.ok_flag && redis_status.ok_flag;
    bootstrap_schema = settings.bootstrap_schema;
    run_migrations_on_start = settings.run_migrations_on_start;
    seed_demo_data = settings.seed_demo_data;
  }

  unfoldable pub get_system_status : Action W SystemStatus
  unfolding check_database check_redis system_status
  get_system_status = do
    db_status ← check_database
    redis_status ← check_redis
    pure (system_status db_status redis_status)
