-- ===== src/Scripts.antt =====
-- scripts/wait_for_services.py: what a container does before the program starts.
pub mod Waiting
use Prim.Native.String.{◌++◌ as ◌<>◌}
use day_trade_intellegence.Core.Action.{Action, Result, err, lift, ok, pure, ◌>>=◌, ◌>>◌}
use day_trade_intellegence.Core.Errors.{Error}
use day_trade_intellegence.Prelude.{
  Bool, Option, String, codes, decimal, if◌then◌else◌, is_empty, lower_is, ltb, none, not, some,
  suc, zero, ℕ, ◌*◌, ◌+◌, ◌/◌,
}
use day_trade_intellegence.Security.Access.{remove_prefix}

-- Sockets, the clock (`time.time()`, in microseconds), the environment, `urlparse` and the
-- subprocess that runs Alembic.
pub record Host (W : Type 0) : Type 0 where
  pub time : W → ℕ
  -- `time.sleep(seconds)`
  pub sleep : ℕ → W → W
  -- `socket.create_connection((host, port), timeout=2)`, and closing it
  pub create_connection : String → ℕ → Action W (Unit {0})
  -- `isinstance(exc, OSError)`
  pub is_os_error : Error → Bool
  pub getenv : String → Option String
  pub hostname : String → Option String
  pub port : String → Result (Option ℕ)
  pub alembic_upgrade : Action W (Unit {0})

abbrev pub microseconds : ℕ → ℕ
microseconds seconds = seconds * 1000000

module _ {W : Type 0} (host : Host W) where
  unfoldable pub timed_out : String → ℕ → String → Error
  unfolding decimal
  timed_out address port name =
      Error.other "TimeoutError"
        ("Timed out waiting for " <> (name <> (" at " <> (address <> (":" <> decimal port)))))

  -- What follows an attempt; `again` is the rest of the loop.
  unfoldable pub after_attempt :
      (W → Option (Result (Unit {0}) × W)) → Result (Unit {0}) × W → Option (Result (Unit {0}) × W)
  after_attempt again (ok u, w) = some (ok tt, w)
  after_attempt again (err exc, w) =
      if host.is_os_error exc then again (host.sleep 2 w) else some (err exc, w)

  -- The `while` loop; `none` means that the fuel ran out.
  unfoldable pub wait_loop : String → ℕ → String → ℕ → ℕ → W → Option (Result (Unit {0}) × W)
  unfolding after_attempt timed_out
  wait_loop address port name deadline zero w = none
  wait_loop address port name deadline (suc fuel) w =
      if ltb (host.time w) deadline
      then after_attempt (wait_loop address port name deadline fuel)
          (host.create_connection address port w)
      else some (err (timed_out address port name), w)

  abbrev pub or_out_of_fuel : W → Option (Result (Unit {0}) × W) → Result (Unit {0}) × W
  or_out_of_fuel w none = (err (Error.other "OutOfFuel" ""), w)
  or_out_of_fuel w (some x) = x

  -- A round that fails takes at least the two seconds that it sleeps.
  unfoldable pub wait_for_tcp_service : String → ℕ → String → ℕ → Action W (Unit {0})
  unfolding wait_loop
  wait_for_tcp_service address port name timeout_seconds w = or_out_of_fuel w (
      wait_loop address port name (host.time w + microseconds timeout_seconds)
        (suc (timeout_seconds / 2 + 1)) w)

  -- `x or default`, for a text and for a number
  unfoldable pub text_or : String → Option String → String
  text_or default none = default
  text_or default (some text) = if is_empty text then default else text

  unfoldable pub number_or : ℕ → Option ℕ → ℕ
  number_or default none = default
  number_or default (some zero) = default
  number_or default (some (suc n)) = suc n

  -- `os.getenv(name, default)`
  abbrev env_or : String → String → String
  env_or name default = elim (host.getenv name) [ none ↦ default | some value ↦ value ]

  unfoldable pub wait_for_url : String → String → ℕ → String → Action W (Unit {0})
  unfolding wait_for_tcp_service text_or number_or
  wait_for_url url address default_port name = do
    port ← lift (host.port url)
    wait_for_tcp_service (text_or address (host.hostname url)) (number_or default_port port) name 60

  unfoldable pub maybe_wait_for_database : Action W (Unit {0})
  unfolding wait_for_url remove_prefix
  maybe_wait_for_database =
      let database_url = env_or "DATABASE_URL" "sqlite:///./day_trade_intelligence.db" in
      elim (remove_prefix (codes "sqlite") (codes database_url)) [
        | some rest ↦ pure tt
        | none ↦ wait_for_url database_url "db" 5432 "database"
      ]

  unfoldable pub maybe_wait_for_redis : Action W (Unit {0})
  unfolding wait_for_url
  maybe_wait_for_redis =
      wait_for_url (env_or "REDIS_URL" "redis://localhost:6379/0") "redis" 6379 "redis"

  unfoldable pub maybe_run_migrations : Action W (Unit {0})
  unfolding lower_is
  maybe_run_migrations =
      if not (lower_is (env_or "RUN_MIGRATIONS_ON_START" "false") "true")
      then pure tt
      else host.alembic_upgrade

  -- the script
  unfoldable pub run_script : Action W (Unit {0})
  unfolding maybe_wait_for_database maybe_wait_for_redis maybe_run_migrations
  run_script = do maybe_wait_for_database; maybe_wait_for_redis; maybe_run_migrations
