-- ===== src/Repositories/Users.antt =====
-- What `create_user` of app/repositories/user_repository.py comes to, where the database does not fail.
use day_trade_intellegence.Core.Action.{ok, pure, ◌>>=◌}
use day_trade_intellegence.Db.Models.{Entity}
use day_trade_intellegence.Db.Session.{IsReliable, IsTransactional, Session}
use day_trade_intellegence.Prelude.{String, refl, true, ◌≡◌}
use day_trade_intellegence.Repositories.{create_user}

module _ {F W : Type 0} (db : Session F W) (writes : IsTransactional db) (reliable : IsReliable db)
    (username password_hash role : String) (w : W) where
  abbrev made : Entity F
  made =
      Entity.user (record {
        username = username;
        password_hash = password_hash;
        role = role;
        is_active = true;
      })

  -- It returns, and the tables are those after the insert.
  pub create_user_inserts :
      ((create_user db username password_hash role w).0 ≡ ok tt)
      × (db.tables (create_user db username password_hash role w).1
          ≡ db.tables (db.insert made w).1)
  unfolding create_user ◌>>=◌ pure
  create_user_inserts =
      rw (reliable.inserts made w, reliable.selects (db.insert made w).1)
        (refl, writes.select_reads (db.insert made w).1)
