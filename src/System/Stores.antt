-- ===== src/System/Stores.antt =====
-- Every write of the program keeps the tables consistent, and the number of open sessions.
use mathlib.Core.Path.{subst}
use day_trade_intellegence.Api.Stable.{IsStable}
use day_trade_intellegence.Core.Action.{Action, Result, Result-cases, err, ok, ◌>>=◌}
use day_trade_intellegence.Core.Action.Triple.{Keeps, Triple, Triple-bind, Triple-bind-lift}
use day_trade_intellegence.Core.Errors.{Error}
use day_trade_intellegence.Db.Factory.{IsCounted}
use day_trade_intellegence.Db.Models.{Entity, Position, Stored, Tables, add_row}
use day_trade_intellegence.Db.Session.{IsTransactional, with_position}
use day_trade_intellegence.Dependencies.{Platform}
use day_trade_intellegence.Domain.Reconciliation.{ReconciliationRunRecord}
use day_trade_intellegence.Domain.Trading.{PositionRecord}
use day_trade_intellegence.External.{IsSeparated}
use day_trade_intellegence.Orchestrator.Frames.{IsRecorded, IsUnwritten}
use day_trade_intellegence.Prelude.{
  All, Bool, List, Option, String, [], ap, arith, inl, inr, none, refl, some, sym, ℕ, ◌∙◌, ◌∷◌, ◌≡◌,
  ◌≢◌,
}
use day_trade_intellegence.Repositories.{
  create_audit_log, create_reconciliation_run, create_strategy_run, create_trade_order, one_or_none,
  position_row, store_position, upsert_position,
}
use day_trade_intellegence.Repositories.Positions.{held}
use day_trade_intellegence.Services.Frames.{IsFramed, tables-IsFramed}
use day_trade_intellegence.System.Consistent.{
  IsConsistent, assign_position-IsConsistent, insert_position-IsConsistent, same-IsConsistent,
}

-- The calls that touch neither the tables nor the sessions keep `P`.
pub record IsOutside {F W : Type 0} (platform : Platform F W) (P : W → Type 0) : Type 0 where
  pub delayed : (live : Bool) → Keeps P (platform.delay live)
  pub selected_one : Keeps P platform.sessions.select_one
  pub pinged : (url : String) → Keeps P (platform.redis.ping url)
  pub created : Keeps P platform.migrations.create_all
  pub upgraded : Keeps P platform.migrations.upgrade_head
  pub salted : (w : W) → P w → P (platform.crypto.token_hex w).1

-- What is outside opens and closes no session, writes no row but through the session of the call,
-- and the database gives a new row a key that no position has.
pub record IsContained {F W : Type 0} (platform : Platform F W) : Type 0 where
  pub counted : IsCounted platform.sessions
  pub writes : IsTransactional platform.ext.db
  pub separated : IsSeparated platform.ext
  pub fresh :
      (w : W) → All (λ u. u.id ≢ platform.ext.db.next_id w) (platform.ext.db.tables w).positions
  pub framed : (n : ℕ) → IsFramed platform.ext (λ w. platform.sessions.opened w ≡ n)
  pub unwritten : (n : ℕ) → IsUnwritten platform.ext.db (λ w. platform.sessions.opened w ≡ n)
  pub placed :
      (n : ℕ) (symbol action : String) (quantity : ℕ)
      → Keeps
          (λ w. platform.sessions.opened w ≡ n)
          (platform.ext.ib.place_order symbol action quantity)
  -- the other calls, which touch neither the tables nor the sessions
  pub open_tables :
      (w : W) → platform.ext.db.tables (platform.sessions.open_session w) ≡ platform.ext.db.tables w
  pub close_tables :
      (w : W)
      → platform.ext.db.tables (platform.sessions.close_session w) ≡ platform.ext.db.tables w
  pub outside :
      (n : ℕ) (d : Tables F)
      → IsOutside platform (λ w. (platform.ext.db.tables w ≡ d) × (platform.sessions.opened w ≡ n))

module _ {F W : Type 0} (platform : Platform F W) (contained : IsContained platform) where
  -- The tables are consistent and `n` sessions are open.
  abbrev pub Sound : ℕ → W → Type 0
  Sound n w = IsConsistent (platform.ext.db.tables w) × (platform.sessions.opened w ≡ n)

  pub insert_at :
      (e : Entity F) (n : ℕ) (w : W)
      → Sound n w
      → IsConsistent
          (add_row (platform.ext.db.next_id w) (platform.ext.db.now w) e (platform.ext.db.tables w))
      → Sound n (platform.ext.db.insert e w).1
  insert_at e n w (c, opened) k = (
    elim (Result-cases (platform.ext.db.insert e w).0) [
      | inl (u, h) ↦ rw (contained.writes.insert_ok e w h) k
      | inr (x, h) ↦ rw (contained.writes.insert_err e w x h) c
    ],
    ((contained.unwritten n).insert e).at w opened,
  )

  update_at :
      (i : ℕ) (p : Position F) (n : ℕ) (w : W)
      → Sound n w
      → IsConsistent (with_position i (platform.ext.db.now w) p (platform.ext.db.tables w))
      → Sound n (platform.ext.db.update_position i p w).1
  update_at i p n w (c, opened) k = (
    elim (Result-cases (platform.ext.db.update_position i p w).0) [
      | inl (u, h) ↦ rw (contained.writes.update_ok i p w h) k
      | inr (x, h) ↦ rw (contained.writes.update_err i p w x h) c
    ],
    ((contained.unwritten n).update i p).at w opened,
  )

  -- A call that touches neither the tables nor the sessions.
  pub outside-Sound :
      {A : Type 0} (m : Action W A) (n : ℕ)
      → ((d : Tables F)
          → Keeps (λ w. (platform.ext.db.tables w ≡ d) × (platform.sessions.opened w ≡ n)) m)
      → Keeps (Sound n) m
  outside-Sound m n k = record {
    at = λ w (c, opened).
        let (tables, opened') = (k (platform.ext.db.tables w)).at w (refl, opened) in
        (rw tables c, opened');
  }

  framed-Sound : (n : ℕ) → IsFramed platform.ext (Sound n)
  framed-Sound n =
      let t = tables-IsFramed platform.ext contained.separated IsConsistent in
      let o = contained.framed n in
      record {
        create = λ w (c, opened). (t.create w c, o.create w opened);
        connect = λ h p k. record {
          at = λ w (c, opened). ((t.connect h p k).at w c, (o.connect h p k).at w opened);
        };
        summary = record { at = λ w (c, opened). (t.summary.at w c, o.summary.at w opened) };
        positions = record { at = λ w (c, opened). (t.positions.at w c, o.positions.at w opened) };
        disconnect = λ w (c, opened). (t.disconnect w c, o.disconnect w opened);
        bars = λ k u s m f. record {
          at = λ w (c, opened). ((t.bars k u s m f).at w c, (o.bars k u s m f).at w opened);
        };
      }

  pub selected-Sound : (n : ℕ) → Keeps (Sound n) platform.ext.db.select
  selected-Sound n = record {
    at = λ w (c, opened).
        (rw (contained.writes.select_reads w) c, (contained.unwritten n).select.at w opened);
  }

  -- The rest of a block that has read the tables.
  pub reading_tables :
      {A : Type 0} (n : ℕ) (R : Result A → W → Type 0) (f : Tables F → Action W A)
      → ((d : Tables F) → Triple (λ w. Sound n w × (platform.ext.db.tables w ≡ d)) (f d) R)
      → ((e : Error) (w : W) → Sound n w → R (err e) w)
      → Triple (Sound n) (platform.ext.db.select >>= f) R
  reading_tables n R f k stops =
      Triple-bind (λ r w. Sound n w × ((d : Tables F) → r ≡ ok d → platform.ext.db.tables w ≡ d)) R
        _ f
        (record {
          at = λ w h. (
            (selected-Sound n).at w h,
            λ d e. contained.writes.select_reads w ∙ sym (contained.writes.select_ok w d e),
          );
        })
        (λ d. record { at = λ w (h, here). (k d).at w (h, here d refl) }) (λ e w h. stops e w (h.0))

  store-Sound :
      (r : PositionRecord F) (n : ℕ) (d : Tables F) (rows : List (Stored (Position F)))
      (found : Option (Stored (Position F)))
      → held r.symbol d.positions ≡ rows
      → one_or_none rows ≡ ok found
      → Triple
          (λ w. Sound n w × (platform.ext.db.tables w ≡ d))
          (store_position platform.ext.db r found)
          (λ r. Sound n)
  unfolding one_or_none store_position add_row with_position position_row
  store-Sound r n d [] (some row) h e = cc
  store-Sound r n d [] none h e = record {
    at = λ w (sound, here). insert_at _ n w sound (
        rw here (
          insert_position-IsConsistent r _ _ d (subst IsConsistent here sound.0) h (
            subst (λ x. All (λ u. u.id ≢ platform.ext.db.next_id w) x.positions) here
              (contained.fresh w))));
  }
  store-Sound r n d (row ∷ []) none h e = cc
  store-Sound r n d (row ∷ []) (some found) h e = record {
    at = λ w (sound, here). update_at _ _ n w sound (
        rw here (
          assign_position-IsConsistent r found _ d (subst IsConsistent here sound.0)
            (h ∙ ap (λ x. x ∷ []) (cc e))));
  }
  store-Sound r n d (row ∷ other ∷ rows) found h e = cc

  pub upsert_position-Sound :
      (r : PositionRecord F) (n : ℕ) → Keeps (Sound n) (upsert_position platform.ext.db r)
  unfolding upsert_position
  upsert_position-Sound r n =
      reading_tables n (λ r. Sound n) _
        (λ d.
          Triple-bind-lift (λ r. Sound n) (one_or_none (held r.symbol d.positions)) _
            (λ found e. store-Sound r n d (held r.symbol d.positions) found refl e)
            (λ e w _ h. h.0))
        (λ e w h. h)

  pub recorded-Sound : (n : ℕ) → IsRecorded platform.ext.db (Sound n)
  unfolding create_audit_log create_strategy_run create_trade_order add_row
  recorded-Sound n = record {
    audit = λ r. record { at = λ w h. insert_at _ n w h (same-IsConsistent _ _ refl refl h.0) };
    run = λ r. record { at = λ w h. insert_at _ n w h (same-IsConsistent _ _ refl refl h.0) };
    order = λ r. record { at = λ w h. insert_at _ n w h (same-IsConsistent _ _ refl refl h.0) };
    position = λ r. upsert_position-Sound r n;
  }

  pub run_stored-Sound :
      (n : ℕ) (r : ReconciliationRunRecord F)
      → Keeps (Sound n) (create_reconciliation_run platform.ext.db r)
  unfolding create_reconciliation_run add_row
  run_stored-Sound n r = record {
    at = λ w h. insert_at _ n w h (same-IsConsistent _ _ refl refl h.0);
  }

  pub stable-Sound : IsStable platform Sound
  stable-Sound = record {
    framed = framed-Sound;
    recorded = recorded-Sound;
    run_stored = run_stored-Sound;
    selected = selected-Sound;
    delayed = λ n live. outside-Sound _ n (λ d. (contained.outside n d).delayed live);
    opens = λ n w (c, opened).
        (rw (contained.open_tables w) c, omega (arith, contained.counted.opened-open w, opened));
    closes = λ n w (c, opened).
        (rw (contained.close_tables w) c, omega (arith, contained.counted.opened-close w, opened));
    selected_one = λ n. outside-Sound _ n (λ d. (contained.outside n d).selected_one);
    pinged = λ n url. outside-Sound _ n (λ d. (contained.outside n d).pinged url);
  }

  pub placed-Sound :
      (n : ℕ) (symbol action : String) (quantity : ℕ)
      → Keeps (Sound n) (platform.ext.ib.place_order symbol action quantity)
  placed-Sound n symbol action quantity = record {
    at = λ w (c, opened). (
      rw (contained.separated.place_tables symbol action quantity w) c,
      (contained.placed n symbol action quantity).at w opened,
    );
  }
