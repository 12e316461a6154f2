-- ===== src/Repositories/Positions.antt =====
-- The rows of the table of positions, by symbol, under the writes of `upsert_position`.
use mathlib.Core.List.{append-nil}
use mathlib.Core.Path.{subst}
use day_trade_intellegence.Db.Models.{Position, Stored}
use day_trade_intellegence.Db.Session.{set_position}
use day_trade_intellegence.Domain.Trading.{PositionRecord}
use day_trade_intellegence.Prelude.{
  All, Bool, Bool-cases, List, String, [], ap, arith, eq_iff, false, filter, filter-append,
  filter_holds, filter_no, filter_yes, inl, inr, refl, sym, true, ℕ, ◌++◌, ◌∙◌, ◌∷◌, ◌≡◌, ◌≢◌,
}
use day_trade_intellegence.Repositories.{has_symbol, position_row}

module _ {F : Type 0} where
  -- No two rows have the same key.
  abbrev pub IsKeyed : List (Stored (Position F)) → Type 0
  IsKeyed [] = Unit
  IsKeyed (r ∷ rs) = All (λ u. u.id ≢ r.id) rs × IsKeyed rs

  -- The rows of a symbol.
  abbrev pub held : String → List (Stored (Position F)) → List (Stored (Position F))
  held symbol rows = filter (has_symbol symbol) rows

  filter_head :
      (p : Stored (Position F) → Bool) (P : Stored (Position F) → Type 0)
      (rows : List (Stored (Position F))) (row : Stored (Position F))
      (rest : List (Stored (Position F)))
      → filter p rows ≡ row ∷ rest
      → All P rows
      → P row
  filter_head p P [] row rest h all = cc
  filter_head p P (r ∷ rs) row rest h (first, all) = elim (Bool-cases (p r)) [
    | inl e ↦ let same : r ≡ row = cc (filter_yes p r rs e, h) in subst P same first
    | inr e ↦ filter_head p P rs row rest (sym (filter_no p r rs e) ∙ h) all
  ]

  set_position_hit :
      (i t : ℕ) (p : Position F) (r : Stored (Position F)) (rs : List (Stored (Position F)))
      → r.id ≡ i
      → set_position i t p (r ∷ rs)
        ≡ record { id = i; stamp = t; columns = p } ∷ set_position i t p rs
  unfolding set_position
  set_position_hit i t p r rs e = ground arith

  set_position_miss :
      (i t : ℕ) (p : Position F) (r : Stored (Position F)) (rs : List (Stored (Position F)))
      → r.id ≢ i
      → set_position i t p (r ∷ rs) ≡ r ∷ set_position i t p rs
  unfolding set_position
  set_position_miss i t p r rs e = ground arith

  set_position_absent :
      (i t : ℕ) (p : Position F) (rows : List (Stored (Position F)))
      → All (λ u. u.id ≢ i) rows
      → set_position i t p rows ≡ rows
  unfolding set_position
  set_position_absent i t p [] all = refl
  set_position_absent i t p (r ∷ rs) (first, all) =
      set_position_miss i t p r rs first ∙ ap (◌∷◌ r) (set_position_absent i t p rs all)

  filter_cons :
      (q : Stored (Position F) → Bool) (r : Stored (Position F))
      (xs ys : List (Stored (Position F)))
      → filter q xs ≡ filter q ys
      → filter q (r ∷ xs) ≡ filter q (r ∷ ys)
  filter_cons q r xs ys h = elim (Bool-cases (q r)) [
    | inl e ↦ filter_yes q r xs e ∙ ap (◌∷◌ r) h ∙ sym (filter_yes q r ys e)
    | inr e ↦ filter_no q r xs e ∙ h ∙ sym (filter_no q r ys e)
  ]

  has_symbol-true :
      (symbol : String) (r : Stored (Position F))
      → has_symbol symbol r ≡ true
      → r.columns.symbol ≡ symbol
  unfolding has_symbol
  has_symbol-true symbol r e = (eq_iff r.columns.symbol symbol).0 e

  has_symbol_self :
      (symbol : String) (r : Stored (Position F))
      → r.columns.symbol ≡ symbol
      → has_symbol symbol r ≡ true
  unfolding has_symbol
  has_symbol_self symbol r e = (eq_iff r.columns.symbol symbol).1 e

  has_symbol-other :
      (symbol : String) (r : Stored (Position F))
      → symbol ≢ r.columns.symbol
      → has_symbol symbol r ≡ false
  has_symbol-other symbol r differ = elim (Bool-cases (has_symbol symbol r)) [
    | inl e ↦ absurd (differ (sym (has_symbol-true symbol r e)))
    | inr e ↦ e
  ]

  -- The row of a symbol gets the new columns, and the rows of any other symbol stay.
  abbrev Assigned : ℕ → ℕ → Position F → List (Stored (Position F)) → Type 0
  Assigned i t p rows =
      (held p.symbol (set_position i t p rows) ≡ record { id = i; stamp = t; columns = p } ∷ [])
      × ((other : String)
          → other ≢ p.symbol
          → held other (set_position i t p rows) ≡ held other rows)

  set_here :
      (row : Stored (Position F)) (t : ℕ) (p : Position F) (r : Stored (Position F))
      (rs : List (Stored (Position F)))
      → All (λ u. u.id ≢ r.id) rs
      → r.columns.symbol ≡ p.symbol
      → r ≡ row
      → held p.symbol rs ≡ []
      → Assigned row.id t p (r ∷ rs)
  set_here row t p r rs fresh mine same rest =
      let key : r.id ≡ row.id = ap (λ u. u.id) same in
      let new : Stored (Position F) = record { id = row.id; stamp = t; columns = p } in
      let after : set_position row.id t p (r ∷ rs) ≡ new ∷ rs =
        set_position_hit row.id t p r rs key
        ∙ ap (◌∷◌ new)
            (set_position_absent row.id t p rs (subst (λ i. All (λ u. u.id ≢ i) rs) key fresh)) in
      (
        ap (held p.symbol) after
            ∙ filter_yes (has_symbol p.symbol) new rs (has_symbol_self p.symbol new refl)
            ∙ ap (◌∷◌ new) rest,
        λ other differ.
            ap (held other) after
            ∙ filter_no (has_symbol other) new rs (has_symbol-other other new differ)
            ∙ sym (
                filter_no (has_symbol other) r rs
                  (has_symbol-other other r (λ e. differ (e ∙ mine)))),
      )

  set_later :
      (i t : ℕ) (p : Position F) (r : Stored (Position F)) (rs : List (Stored (Position F)))
      → has_symbol p.symbol r ≡ false
      → r.id ≢ i
      → Assigned i t p rs
      → Assigned i t p (r ∷ rs)
  set_later i t p r rs e apart (here, others) =
      let after = set_position_miss i t p r rs apart in
      (
        ap (held p.symbol) after ∙ filter_no (has_symbol p.symbol) r _ e ∙ here,
        λ other differ.
            ap (held other) after
            ∙ filter_cons (has_symbol other) r (set_position i t p rs) rs (others other differ),
      )

  set_position-Assigned :
      (row : Stored (Position F)) (t : ℕ) (p : Position F) (rows : List (Stored (Position F)))
      → IsKeyed rows
      → held p.symbol rows ≡ row ∷ []
      → Assigned row.id t p rows
  set_position-Assigned row t p [] keyed h = cc
  set_position-Assigned row t p (r ∷ rs) (fresh, keyed) h =
      elim (Bool-cases (has_symbol p.symbol r)) [
        | inl e ↦
            let found = filter_yes (has_symbol p.symbol) r rs e in
            set_here row t p r rs fresh (has_symbol-true p.symbol r e) (cc (found, h))
              (cc (found, h))
        | inr e ↦
            let rest : held p.symbol rs ≡ row ∷ [] =
              sym (filter_no (has_symbol p.symbol) r rs e) ∙ h in
            let apart : row.id ≢ r.id =
              filter_head (has_symbol p.symbol) (λ u. u.id ≢ r.id) rs row [] rest fresh in
            set_later row.id t p r rs e (λ q. apart (sym q))
              (set_position-Assigned row t p rs keyed rest)
      ]

  -- What the table holds for each symbol after a position was stored, from the rows before.
  pub record IsUpserted (r : PositionRecord F) (before after : List (Stored (Position F)))
      : Type 0 where
    pub row : Stored (Position F)
    pub here : held r.symbol after ≡ row ∷ []
    pub columns : row.columns ≡ position_row r
    pub others : (other : String) → other ≢ r.symbol → held other after ≡ held other before

  pub inserted :
      (r : PositionRecord F) (i t : ℕ) (rows : List (Stored (Position F)))
      → held r.symbol rows ≡ []
      → IsUpserted r rows (rows ++ record { id = i; stamp = t; columns = position_row r } ∷ [])
  unfolding position_row
  inserted r i t rows absent =
      let new : Stored (Position F) = record { id = i; stamp = t; columns = position_row r } in
      record {
        row = new;
        here =
            filter-append (has_symbol r.symbol) rows (new ∷ [])
            ∙ ap (λ l. l ++ held r.symbol (new ∷ [])) absent
            ∙ filter_yes (has_symbol r.symbol) new [] (has_symbol_self r.symbol new refl);
        columns = refl;
        others = λ other differ.
            filter-append (has_symbol other) rows (new ∷ [])
            ∙ ap (◌++◌ (held other rows))
                (filter_no (has_symbol other) new [] (has_symbol-other other new differ))
            ∙ append-nil _;
      }

  pub assigned :
      (r : PositionRecord F) (row : Stored (Position F)) (t : ℕ) (rows : List (Stored (Position F)))
      → IsKeyed rows
      → held r.symbol rows ≡ row ∷ []
      → IsUpserted r rows
          (set_position row.id t (record (position_row r) { symbol = row.columns.symbol }) rows)
  unfolding position_row
  assigned r row t rows keyed found =
      let mine : row.columns.symbol ≡ r.symbol =
        has_symbol-true r.symbol row (filter_holds (has_symbol r.symbol) rows row [] found) in
      let (here, others) = set_position-Assigned row t (position_row r) rows keyed found in
      rw mine (record {
        row = record { id = row.id; stamp = t; columns = position_row r };
        here = here;
        columns = refl;
        others = others;
      })
