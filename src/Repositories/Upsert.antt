-- ===== src/Repositories/Upsert.antt =====
-- The table of positions before and after `upsert_position`.
use day_trade_intellegence.Core.Action.{Result, err, ok}
use day_trade_intellegence.Core.Action.Triple.{Gives, Triple, Triple-bind-lift, Triple-gives}
use day_trade_intellegence.Core.Errors.{Error}
use day_trade_intellegence.Db.Models.{Position, Stored, Tables, add_row}
use day_trade_intellegence.Db.Session.{IsReliable, IsTransactional, Session, with_position}
use day_trade_intellegence.Domain.Trading.{PositionRecord}
use day_trade_intellegence.Prelude.{
  List, Option, [], ap, arith, length, none, refl, some, ◌∙◌, ◌∷◌, ◌≡◌, ◌≤◌,
}
use day_trade_intellegence.Repositories.{one_or_none, store_position, upsert_position}
use day_trade_intellegence.Repositories.Positions.{IsKeyed, IsUpserted, assigned, held, inserted}

module _ {F W : Type 0} (db : Session F W) (writes : IsTransactional db) (reliable : IsReliable db)
    (r : PositionRecord F) (d : Tables F) (keyed : IsKeyed d.positions) where
  abbrev At : W → Type 0
  At w = db.tables w ≡ d

  abbrev Upserted : Result (Unit {0}) → W → Type 0
  Upserted result w = (result ≡ ok tt) × IsUpserted r d.positions (db.tables w).positions

  store_position-Upserted :
      (rows : List (Stored (Position F))) (found : Option (Stored (Position F)))
      → held r.symbol d.positions ≡ rows
      → one_or_none rows ≡ ok found
      → Triple At (store_position db r found) Upserted
  unfolding one_or_none store_position add_row with_position
  store_position-Upserted [] (some row) h e = cc
  store_position-Upserted [] none h e = record {
    at = λ w k. (
      reliable.inserts _ w,
      rw (writes.insert_ok _ w (reliable.inserts _ w), k)
          (inserted r (db.next_id w) (db.now w) d.positions h),
    );
  }
  store_position-Upserted (row ∷ []) none h e = cc
  store_position-Upserted (row ∷ []) (some found) h e = record {
    at = λ w k. (
      reliable.updates _ _ w,
      rw (writes.update_ok _ _ w (reliable.updates _ _ w), k)
          (assigned r found (db.now w) d.positions keyed (h ∙ ap (λ x. x ∷ []) (cc e))),
    );
  }
  store_position-Upserted (row ∷ other ∷ rows) found h e = cc

  -- no more than one row of the symbol, so that the query finds one or none
  found_one_or_none :
      (rows : List (Stored (Position F))) (e : Error)
      → length rows ≤ 1
      → one_or_none rows ≡ err e
      → ⊥
  unfolding one_or_none
  found_one_or_none [] e unique h = cc
  found_one_or_none (row ∷ []) e unique h = cc
  found_one_or_none (row ∷ other ∷ rows) e unique h = omega (arith, unique)

  upsert_position-Upserted :
      length (held r.symbol d.positions) ≤ 1 → Triple At (upsert_position db r) Upserted
  unfolding upsert_position
  upsert_position-Upserted unique =
      let reads : Triple At db.select (Gives d At) = record {
        at = λ w h. (reliable.selects w ∙ ap ok h, writes.select_reads w ∙ h);
      } in
      Triple-gives Upserted d _ _ reads (
        Triple-bind-lift Upserted (one_or_none (held r.symbol d.positions)) _
          (λ found e. store_position-Upserted (held r.symbol d.positions) found refl e)
          (λ e w h k. absurd (found_one_or_none (held r.symbol d.positions) e unique h)))

module _ {F W : Type 0} (db : Session F W) (writes : IsTransactional db)
    (reliable : IsReliable db) where
  -- Where the database does not fail, the rows have different keys and at most one row is of the
  -- symbol, storing a position returns, leaves exactly one row of its symbol, with the columns of the
  -- position that was stored and none of the former ones, and leaves the rows of any other symbol
  -- unchanged.
  pub upsert_position_lem :
      (r : PositionRecord F) (w : W)
      → IsKeyed (db.tables w).positions
      → length (held r.symbol (db.tables w).positions) ≤ 1
      → ((upsert_position db r w).0 ≡ ok tt)
        × IsUpserted r (db.tables w).positions (db.tables (upsert_position db r w).1).positions
  upsert_position_lem r w keyed unique =
      (upsert_position-Upserted db writes reliable r (db.tables w) keyed unique).at w refl
