-- ===== src/System/Consistent.antt =====
-- What the unique columns of the tables say, under each write.
use day_trade_intellegence.Bootstrap.Steps.{IsReady, append-IsReady, count}
use day_trade_intellegence.Db.Models.{Position, Stored, Tables, User}
use day_trade_intellegence.Db.Session.{set_position}
use day_trade_intellegence.Domain.Trading.{PositionRecord}
use day_trade_intellegence.Prelude.{
  All, Bool-cases, List, String, [], arith, eq_iff, inl, inr, length, str_eq, sym, ℕ, ◌++◌, ◌==◌,
  ◌∷◌, ◌≡◌, ◌≢◌, ◌≤◌,
}
use day_trade_intellegence.Repositories.{position_row}
use day_trade_intellegence.Repositories.Positions.{IsKeyed, IsUpserted, assigned, held, inserted}

module _ {F : Type 0} where
  -- No username and no symbol has two rows, and no two positions have the same key.
  pub record IsConsistent (d : Tables F) : Type 0 where
    pub one_user : (username : String) → count username d.users ≤ 1
    pub one_position : (symbol : String) → length (held symbol d.positions) ≤ 1
    pub keyed : IsKeyed d.positions

  -- A write that leaves these two tables alone.
  pub same-IsConsistent :
      (d e : Tables F)
      → e.users ≡ d.users
      → e.positions ≡ d.positions
      → IsConsistent d
      → IsConsistent e
  same-IsConsistent d e users positions c = record {
    one_user = λ username. rw users (c.one_user username);
    one_position = λ symbol. rw positions (c.one_position symbol);
    keyed = rw positions c.keyed;
  }

  upserted_one :
      (r : PositionRecord F) (before after : List (Stored (Position F)))
      → IsUpserted r before after
      → ((symbol : String) → length (held symbol before) ≤ 1)
      → (symbol : String) → length (held symbol after) ≤ 1
  upserted_one r before after upserted one symbol = elim (Bool-cases (str_eq symbol r.symbol)) [
    | inl e ↦
        let same : symbol ≡ r.symbol = (eq_iff symbol r.symbol).0 e in
        rw (same, upserted.here) (omega arith)
    | inr e ↦ rw (upserted.others symbol (λ p. cc ((eq_iff symbol r.symbol).1 p, e))) (one symbol)
  ]

  append-IsKeyed :
      (rows : List (Stored (Position F))) (new : Stored (Position F))
      → IsKeyed rows
      → All (λ u. u.id ≢ new.id) rows
      → IsKeyed (rows ++ new ∷ [])
  append-IsKeyed [] new keyed fresh = (tt, tt)
  append-IsKeyed (r ∷ rows) new (apart, keyed) (differ, fresh) =
      (appended rows apart, append-IsKeyed rows new keyed fresh)
    where
      appended :
          (rs : List (Stored (Position F)))
          → All (λ u. u.id ≢ r.id) rs
          → All (λ u. u.id ≢ r.id) (rs ++ new ∷ [])
      appended [] h = (λ e. differ (sym e), tt)
      appended (u ∷ rs) (p, h) = (p, appended rs h)

  set_position-All :
      (key i t : ℕ) (p : Position F) (rows : List (Stored (Position F)))
      → All (λ u. u.id ≢ key) rows
      → All (λ u. u.id ≢ key) (set_position i t p rows)
  unfolding set_position
  set_position-All key i t p [] h = tt
  set_position-All key i t p (r ∷ rows) (differ, h) = (
    elim (Bool-cases (r.id == i)) [
      | inl e ↦ rw e (λ k. differ (ground (arith, e, k)))
      | inr e ↦ rw e differ
    ],
    set_position-All key i t p rows h,
  )

  set_position-IsKeyed :
      (i t : ℕ) (p : Position F) (rows : List (Stored (Position F)))
      → IsKeyed rows
      → IsKeyed (set_position i t p rows)
  unfolding set_position
  set_position-IsKeyed i t p [] keyed = tt
  set_position-IsKeyed i t p (r ∷ rows) (apart, keyed) = (
    elim (Bool-cases (r.id == i)) [
      | inl e ↦
          let same : i ≡ r.id = ground (arith, e) in
          rw (e, same) (set_position-All r.id i t p rows apart)
      | inr e ↦ rw e (set_position-All r.id i t p rows apart)
    ],
    set_position-IsKeyed i t p rows keyed,
  )

  -- A new position, under a symbol and a key that no row has.
  pub insert_position-IsConsistent :
      (r : PositionRecord F) (i t : ℕ) (d : Tables F)
      → IsConsistent d
      → held r.symbol d.positions ≡ []
      → All (λ u. u.id ≢ i) d.positions
      → IsConsistent (record d {
        positions = d.positions ++ record { id = i; stamp = t; columns = position_row r } ∷ [];
      })
  insert_position-IsConsistent r i t d c absent fresh = record {
    one_user = c.one_user;
    one_position = upserted_one r d.positions _ (inserted r i t d.positions absent) c.one_position;
    keyed = append-IsKeyed d.positions _ c.keyed fresh;
  }

  -- New columns for the one row of a symbol.
  pub assign_position-IsConsistent :
      (r : PositionRecord F) (row : Stored (Position F)) (t : ℕ) (d : Tables F)
      → IsConsistent d
      → held r.symbol d.positions ≡ row ∷ []
      → IsConsistent (record d {
        positions =
            set_position row.id t
              (record (position_row r) { symbol = row.columns.symbol })
              d.positions;
      })
  assign_position-IsConsistent r row t d c found = record {
    one_user = c.one_user;
    one_position =
        upserted_one r d.positions _ (assigned r row t d.positions c.keyed found) c.one_position;
    keyed = set_position-IsKeyed row.id t _ d.positions c.keyed;
  }

  -- A new user, under a username that no row has.
  pub insert_user-IsConsistent :
      (u : User) (i t : ℕ) (d : Tables F)
      → IsConsistent d
      → count u.username d.users ≡ 0
      → IsConsistent
          (record d { users = d.users ++ record { id = i; stamp = t; columns = u } ∷ [] })
  insert_user-IsConsistent u i t d c unknown =
      let ready : IsReady [] d.users = record { few = c.one_user; known = λ v m. elim m [ ] } in
      record {
        one_user = (append-IsReady [] d.users _ ready unknown).few;
        one_position = c.one_position;
        keyed = c.keyed;
      }
