-- ===== src/Api/Stable.antt =====
-- What the endpoints leave alone: a view of the world, for each number of open sessions, that every
-- call of the programs outside keeps.
use day_trade_intellegence.Repositories.Queries
use day_trade_intellegence.Services.Query
use day_trade_intellegence.Api.{Credentials, protected}
use day_trade_intellegence.Core.Action.{Action, pure, try_except, ◌>>=◌, ◌>>◌}
use day_trade_intellegence.Core.Action.Triple.{
  Keeps, Keeps-bind, Keeps-if, Keeps-pure, Keeps-raise, Keeps-try_except, Triple-try_finally,
}
use day_trade_intellegence.Core.Errors.{message}
use day_trade_intellegence.Core.Float.{Float}
use day_trade_intellegence.Db.Factory.{with_session}
use day_trade_intellegence.Db.Models.{Tables}
use day_trade_intellegence.Dependencies.{Platform}
use day_trade_intellegence.Domain.Reconciliation.{ReconciliationRunRecord}
use day_trade_intellegence.Orchestrator.Frames.{IsRecorded}
use day_trade_intellegence.Prelude.{Bool, List, String, suc, ℕ}
use day_trade_intellegence.Repositories.{create_reconciliation_run}
use day_trade_intellegence.Security.Access.Frames.{require_role-Keeps}
use day_trade_intellegence.Services.Frames.{IsFramed, get_portfolio_snapshot-Keeps}
use day_trade_intellegence.Services.Operational.{
  check_database, check_redis, get_system_status, reachable, unreachable,
}
use day_trade_intellegence.Services.Portfolio.{get_portfolio_snapshot}
use day_trade_intellegence.Services.Reconciliation.{reconcile, reconcile_positions}

pub record IsStable {F W : Type 0} (platform : Platform F W) (P : ℕ → W → Type 0) : Type 0 where
  pub framed : (n : ℕ) → IsFramed platform.ext (P n)
  pub recorded : (n : ℕ) → IsRecorded platform.ext.db (P n)
  pub run_stored :
      (n : ℕ) (r : ReconciliationRunRecord F)
      → Keeps (P n) (create_reconciliation_run platform.ext.db r)
  pub selected : (n : ℕ) → Keeps (P n) platform.ext.db.select
  pub delayed : (n : ℕ) (live : Bool) → Keeps (P n) (platform.delay live)
  pub opens : (n : ℕ) (w : W) → P n w → P (suc n) (platform.sessions.open_session w)
  pub closes : (n : ℕ) (w : W) → P (suc n) w → P n (platform.sessions.close_session w)
  pub selected_one : (n : ℕ) → Keeps (P n) platform.sessions.select_one
  pub pinged : (n : ℕ) (url : String) → Keeps (P n) (platform.redis.ping url)

module _ {F W : Type 0} (platform : Platform F W) {P : ℕ → W → Type 0}
    (stable : IsStable platform P) where
  pub with_session-Keeps :
      {A : Type 0} (m : Action W A)
      → ((n : ℕ) → Keeps (P n) m)
      → (n : ℕ) → Keeps (P n) (with_session platform.sessions m)
  unfolding with_session
  with_session-Keeps m k n = record {
    at = λ w h.
        (Triple-try_finally (λ r. P (suc n)) (λ r. P n) m platform.sessions.close_session
            (k (suc n)) (λ r v q. stable.closes n v q)).at
          (platform.sessions.open_session w) (stable.opens n w h);
  }

  pub protected-Keeps :
      {A : Type 0} (roles : List String) (c : Credentials) (m : Action W A)
      → ((n : ℕ) → Keeps (P n) m)
      → (n : ℕ) → Keeps (P n) (protected platform roles c m)
  unfolding protected
  protected-Keeps roles c m k n =
      with_session-Keeps _
        (λ n'.
          Keeps-bind _ _
            (require_role-Keeps platform.crypto platform.settings platform.ext (stable.selected n')
              roles c.authorization c.x_api_key)
            λ role. k n')
        n

  check_database-Keeps :
      (n : ℕ) → Keeps (P n) (check_database platform.settings platform.sessions platform.redis)
  unfolding check_database
  check_database-Keeps =
      let url = platform.settings.database_url in
      with_session-Keeps
        (try_except (platform.sessions.select_one >> pure (reachable url))
          (λ exc. pure (unreachable url (message exc))))
        (λ n.
          Keeps-try_except _ _ (Keeps-bind _ _ (stable.selected_one n) λ u. Keeps-pure _)
            (λ exc. Keeps-pure _))

  check_redis-Keeps :
      (n : ℕ) → Keeps (P n) (check_redis platform.settings platform.sessions platform.redis)
  unfolding check_redis
  check_redis-Keeps n = Keeps-if _ _ _ (Keeps-pure _) (
      Keeps-try_except _ _ (Keeps-bind _ _ (stable.pinged n _) λ u. Keeps-pure _)
        (λ exc. Keeps-pure _))

  pub get_system_status-Keeps :
      (n : ℕ) → Keeps (P n) (get_system_status platform.settings platform.sessions platform.redis)
  unfolding get_system_status
  get_system_status-Keeps n =
      Keeps-bind _ _ (check_database-Keeps n)
        λ database. Keeps-bind _ _ (check_redis-Keeps n) λ redis. Keeps-pure _

module _ {F W : Type 0} ⦃fl : Float F⦄ (platform : Platform F W) {P : ℕ → W → Type 0}
    (stable : IsStable platform P) where
  pub reconcile_positions-Keeps :
      (live : Bool) (n : ℕ)
      → Keeps (P n) (reconcile_positions platform.sql platform.settings platform.ext live)
  unfolding reconcile_positions reconcile Query.list_positions Queries.list_positions
  reconcile_positions-Keeps live n =
      Keeps-try_except _ _
        (Keeps-bind _ _
          (get_portfolio_snapshot-Keeps platform.settings platform.ext (stable.framed n) live)
          λ s.
            Keeps-bind _ _
              (Keeps-bind _ _ (Keeps-bind _ _ (stable.selected n) λ t. Keeps-pure _)
                λ f. Keeps-pure _)
              λ book. Keeps-bind _ _ (stable.run_stored n _) λ u. Keeps-pure _)
        (λ exc. Keeps-bind _ _ (stable.run_stored n _) λ u. Keeps-raise _)

  pub snapshot-Keeps :
      (live : Bool) (n : ℕ)
      → Keeps (P n) (get_portfolio_snapshot platform.settings platform.ext live)
  snapshot-Keeps live n =
      get_portfolio_snapshot-Keeps platform.settings platform.ext (stable.framed n) live

  -- A query of the query service, and its answer.
  pub query-Keeps :
      {A B : Type 0} (answer : Tables F → A) (read : A → B) (n : ℕ)
      → Keeps
          (P n)
          ((platform.ext.db.select >>= λ t. pure (answer t)) >>= λ found. pure (read found))
  query-Keeps answer read n =
      Keeps-bind _ _ (Keeps-bind _ _ (stable.selected n) λ t. Keeps-pure _) λ found. Keeps-pure _
