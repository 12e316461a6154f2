-- ===== src/Orchestrator/Writes.antt =====
-- What the best-effort writes of the workflow add to a view of the tables, where the database does
-- not fail.
use mathlib.Core.List.{append-nil}
use day_trade_intellegence.Core.Action.{Action}
use day_trade_intellegence.Core.Action.Triple.{
  Gives, Keeps, Keeps-bind, Keeps-lift, Returns, Triple, Triple-post, Triple-pure,
  Triple-try_except,
}
use day_trade_intellegence.Db.Models.{Entity, Position, Stored, Tables, add_row}
use day_trade_intellegence.Db.Session.{IsReliable, IsTransactional, with_position}
use day_trade_intellegence.Domain.Trading.{PositionRecord}
use day_trade_intellegence.External.{External}
use day_trade_intellegence.Orchestrator.{swallow}
use day_trade_intellegence.Prelude.{List, Option, [], none, refl, some, ℕ, ◌++◌, ◌≡◌}
use day_trade_intellegence.Repositories.{store_position, upsert_position}

-- A view that grows by what each new row adds, and that does not show the positions.
pub record IsLog {F A : Type 0} (view : Tables F → List A) (added : Entity F → List A)
    : Type 0 where
  pub adds : (i t : ℕ) (e : Entity F) (d : Tables F) → view (add_row i t e d) ≡ view d ++ added e
  pub moves : (i t : ℕ) (p : Position F) (d : Tables F) → view (with_position i t p d) ≡ view d
  pub positions : (p : Position F) → added (Entity.position p) ≡ []

swallow-Returns :
    {W : Type 0} {P Q : W → Type 0} (m : Action W (Unit {0}))
    → Triple P m (λ _. Q)
    → Triple P (swallow m) (Returns Q)
unfolding swallow
swallow-Returns {Q} m t =
    Triple-try_except (λ _. Q) (Returns Q) m _ t (λ a w q. q)
      λ e. Triple-pure (Returns Q) tt λ w q. q

module _ {F W A : Type 0} (ext : External F W) (writes : IsTransactional ext.db)
    (reliable : IsReliable ext.db) {view : Tables F → List A} {added : Entity F → List A}
    (log : IsLog view added) where
  -- The view shows `items`.
  abbrev pub Shows : List A → W → Type 0
  Shows items w = view (ext.db.tables w) ≡ items

  pub insert-Returns :
      (e : Entity F) (items : List A)
      → Triple (Shows items) (ext.db.insert e) (Gives tt (Shows (items ++ added e)))
  insert-Returns e items = record {
    at = λ w h.
        (reliable.inserts e w, rw (writes.insert_ok e w (reliable.inserts e w), log.adds, h) refl);
  }

  pub insert-Shows :
      (e : Entity F) (items : List A)
      → Triple (Shows items) (swallow (ext.db.insert e)) (Returns (Shows (items ++ added e)))
  insert-Shows e items =
      swallow-Returns _ (Triple-post _ _ _ (insert-Returns e items) (λ r w h. h.1))

  insert_position-Shows :
      (p : Position F) (items : List A) → Keeps (Shows items) (ext.db.insert (Entity.position p))
  insert_position-Shows p items = record {
    at = λ w h.
        rw (writes.insert_ok _ w (reliable.inserts _ w), log.adds, log.positions p, append-nil) h;
  }

  update-Shows :
      (i : ℕ) (p : Position F) (items : List A) → Keeps (Shows items) (ext.db.update_position i p)
  update-Shows i p items = record {
    at = λ w h. rw (writes.update_ok i p w (reliable.updates i p w), log.moves) h;
  }

  store_position-Shows :
      (r : PositionRecord F) (items : List A) (found : Option (Stored (Position F)))
      → Keeps (Shows items) (store_position ext.db r found)
  unfolding store_position
  store_position-Shows r items none = insert_position-Shows _ items
  store_position-Shows r items (some row) = update-Shows _ _ items

  pub upsert_position-Shows :
      (r : PositionRecord F) (items : List A)
      → Triple (Shows items) (swallow (upsert_position ext.db r)) (Returns (Shows items))
  unfolding upsert_position
  upsert_position-Shows r items =
      let reads : Keeps (Shows items) ext.db.select = record {
        at = λ w h. rw (writes.select_reads w) h;
      } in
      let kept : Keeps (Shows items) (upsert_position ext.db r) =
        Keeps-bind _ _ reads
          λ tables. Keeps-bind _ _ (Keeps-lift _) (store_position-Shows r items) in
      swallow-Returns _ kept
