-- ===== src/Db/Session.antt =====
-- The SQLAlchemy session of app/db/session.py, which is not part of the repository: an interface,
-- with what its documentation says of a unit of work.
use day_trade_intellegence.Prelude.{ℕ, ◌≡◌, List, [], ◌∷◌, ◌==◌, if◌then◌else◌}
use day_trade_intellegence.Core.Errors.{Error}
use day_trade_intellegence.Core.Action.{Action, ok, err}
use day_trade_intellegence.Db.Models.{Entity, Tables, Stored, Position, add_row}

pub record Session (F W : Type 0) : Type 0 where
  -- `session.add(obj)`, then `session.commit()`
  pub insert : Entity F → Action W (Unit {0})
  -- columns of a loaded position assigned, then `session.commit()`
  pub update_position : ℕ → Position F → Action W (Unit {0})
  -- the rows that a query of the session reads
  pub select : Action W (Tables F)
  -- what has been committed, and the key and the time that the database gives to a new row
  pub tables : W → Tables F
  pub next_id : W → ℕ
  pub now : W → ℕ

module _ {F : Type 0} where
  -- The position with the key `i` has new columns, and its `updated_at` is `t`.
  unfoldable pub set_position :
      ℕ → ℕ → Position F → List (Stored (Position F)) → List (Stored (Position F))
  set_position i t p [] = []
  set_position i t p (r ∷ rs) =
      (if r.id == i then record { id = i; stamp = t; columns = p } else r) ∷ set_position i t p rs

  unfoldable pub with_position : ℕ → ℕ → Position F → Tables F → Tables F
  unfolding set_position
  with_position i t p d = record d { positions = set_position i t p d.positions }

-- A commit writes all that is pending, or raises and writes nothing; a query reads what was
-- committed and writes nothing.
pub record IsTransactional {F W : Type 0} (db : Session F W) : Type 0 where
  pub insert_ok :
      (e : Entity F) (w : W)
      → (db.insert e w).0 ≡ ok tt
      → db.tables (db.insert e w).1 ≡ add_row (db.next_id w) (db.now w) e (db.tables w)
  pub insert_err :
      (e : Entity F) (w : W) (x : Error)
      → (db.insert e w).0 ≡ err x
      → db.tables (db.insert e w).1 ≡ db.tables w
  pub update_ok :
      (i : ℕ) (p : Position F) (w : W)
      → (db.update_position i p w).0 ≡ ok tt
      → db.tables (db.update_position i p w).1 ≡ with_position i (db.now w) p (db.tables w)
  pub update_err :
      (i : ℕ) (p : Position F) (w : W) (x : Error)
      → (db.update_position i p w).0 ≡ err x
      → db.tables (db.update_position i p w).1 ≡ db.tables w
  pub select_ok : (w : W) (d : Tables F) → (db.select w).0 ≡ ok d → d ≡ db.tables w
  pub select_reads : (w : W) → db.tables (db.select w).1 ≡ db.tables w

-- Nothing that is asked of the database fails.
pub record IsReliable {F W : Type 0} (db : Session F W) : Type 0 where
  pub inserts : (e : Entity F) (w : W) → (db.insert e w).0 ≡ ok tt
  pub updates : (i : ℕ) (p : Position F) (w : W) → (db.update_position i p w).0 ≡ ok tt
  pub selects : (w : W) → (db.select w).0 ≡ ok (db.tables w)
