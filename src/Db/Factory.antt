-- ===== src/Db/Factory.antt =====
-- `SessionLocal` of app/db/session.py, the SQLAlchemy factory of sessions: an interface. `engine` is
-- SQLAlchemy's too; its one choice, `connect_args`, concerns the driver of SQLite.
use day_trade_intellegence.Core.Action.{Action, try_finally}
use day_trade_intellegence.Prelude.{ℕ, ◌+◌, ◌-◌, ◌≡◌}

pub record SessionFactory (W : Type 0) : Type 0 where
  -- `SessionLocal()`, and `session.close()`
  pub open_session : W → W
  pub close_session : W → W
  -- `session.execute(text("SELECT 1"))`
  pub select_one : Action W (Unit {0})
  -- the sessions that are open
  pub opened : W → ℕ

-- A session is counted from its opening to its closing.
pub record IsCounted {W : Type 0} (sessions : SessionFactory W) : Type 0 where
  pub opened-open : (w : W) → sessions.opened (sessions.open_session w) ≡ sessions.opened w + 1
  pub opened-close : (w : W) → sessions.opened (sessions.close_session w) ≡ sessions.opened w - 1
  pub opened-select : (w : W) → sessions.opened (sessions.select_one w).1 ≡ sessions.opened w

module _ {W A : Type 0} (sessions : SessionFactory W) where
  -- `session = SessionLocal()`, `try: …`, `finally: session.close()`, as `get_db_session` has it
  -- around a request and the worker around a task.
  unfoldable pub with_session : Action W A → Action W A
  unfolding try_finally
  with_session m w = try_finally m sessions.close_session (sessions.open_session w)
