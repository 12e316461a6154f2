-- ===== src/Bootstrap/Steps.antt =====
-- What the steps of a start do: the rows of each user, and the demo data.
use mathlib.Core.Path.{subst}
use day_trade_intellegence.Bootstrap.{demo_position, insert_demo_data}
use day_trade_intellegence.Core.Action.{Action, Result, ok, ◌>>=◌}
use day_trade_intellegence.Core.Action.Triple.{
  Gives, Triple, Triple-gives, Triple-lift, Triple-pure,
}
use day_trade_intellegence.Core.Float.{Float}
use day_trade_intellegence.Db.Models.{Entity, Stored, Tables, User, add_row}
use day_trade_intellegence.Db.Session.{IsReliable, IsTransactional, Session}
use day_trade_intellegence.Domain.Trading.{PositionRecord}
use day_trade_intellegence.Prelude.{
  Bool-cases, IsAmong, List, String, [], ap, arith, eq_iff, filter, filter-append, filter_no,
  filter_yes, inl, inr, length, length-append, none, refl, str_eq, sym, true, ℕ, ◌++◌, ◌+◌, ◌∙◌,
  ◌∷◌, ◌≡◌, ◌≤◌,
}
use day_trade_intellegence.Repositories.{
  create_audit_log, create_reconciliation_run, create_strategy_run, create_trade_order, has_symbol,
  one_or_none, store_position, upsert_position,
}

abbrev pub count : String → List (Stored User) → ℕ
count username users = length (filter (λ r. str_eq r.columns.username username) users)

count-append :
    (username : String) (users more : List (Stored User))
    → count username (users ++ more) ≡ count username users + count username more
count-append username users more =
    let own = λ (r : Stored User). str_eq r.columns.username username in
    ap length (filter-append own users more) ∙ length-append (filter own users) (filter own more)

-- Each username has at most one row, and those of `present` have one.
pub record IsReady (present : List String) (users : List (Stored User)) : Type 0 where
  pub few : (username : String) → count username users ≤ 1
  pub known : (username : String) → IsAmong username present → 1 ≤ count username users

count_own :
    (username : String) (row : Stored User)
    → str_eq row.columns.username username ≡ true
    → count username (row ∷ []) ≡ 1
count_own username row e =
    ap length (filter_yes (λ (r : Stored User). str_eq r.columns.username username) row [] e)

pub append-IsReady :
    (present : List String) (users : List (Stored User)) (row : Stored User)
    → IsReady present users
    → count row.columns.username users ≡ 0
    → IsReady (row.columns.username ∷ present) (users ++ row ∷ [])
append-IsReady present users row ready unknown = record {
  few = λ v.
      let parts = count-append v users (row ∷ []) in
      elim (Bool-cases (str_eq row.columns.username v)) [
        | inl e ↦
            let before : count v users ≡ 0 =
              subst (λ u. count u users ≡ 0) ((eq_iff row.columns.username v).0 e) unknown in
            omega (arith, parts, before, count_own v row e)
        | inr e ↦
            let other : count v (row ∷ []) ≡ 0 =
              ap length (filter_no (λ (r : Stored User). str_eq r.columns.username v) row [] e) in
            omega (arith, parts, ready.few v, other)
      ];
  known = λ v m.
      let parts = count-append v users (row ∷ []) in
      elim m [
        | inl p ↦ omega (arith, parts, count_own v row ((eq_iff row.columns.username v).1 (sym p)))
        | inr n ↦ omega (arith, parts, ready.known v n)
      ];
}

append_nonempty : {A : Type 0} (xs : List A) (x : A) → 1 ≤ length (xs ++ x ∷ [])
append_nonempty [] x = omega arith
append_nonempty (y ∷ xs) x = omega arith

module _ {F W : Type 0} (db : Session F W) (writes : IsTransactional db)
    (reliable : IsReliable db) where
  abbrev pub On : (Tables F → Type 0) → W → Type 0
  On P w = P (db.tables w)

  insert-Returns :
      (P Q : Tables F → Type 0) (e : Entity F)
      → ((d : Tables F) (i t : ℕ) → P d → Q (add_row i t e d))
      → Triple (On P) (db.insert e) (Gives tt (On Q))
  insert-Returns P Q e k = record {
    at = λ w p. (
      reliable.inserts e w,
      rw (writes.insert_ok e w (reliable.inserts e w))
          (k (db.tables w) (db.next_id w) (db.now w) p),
    );
  }

  pub select-At : (d : Tables F) → Triple (On (λ x. x ≡ d)) db.select (Gives d (On (λ x. x ≡ d)))
  select-At d = record { at = λ w h. (reliable.selects w ∙ ap ok h, writes.select_reads w ∙ h) }

  -- The start of a block that reads the tables.
  pub reading :
      {B : Type 0} (P : Tables F → Type 0) (R : Result B → W → Type 0) (f : Tables F → Action W B)
      → ((d : Tables F) → P d → Triple (On (λ x. x ≡ d)) (f d) R)
      → Triple (On P) (db.select >>= f) R
  reading P R f k = record {
    at = λ w p.
        (Triple-gives R (db.tables w) db.select f (select-At (db.tables w)) (k (db.tables w) p)).at
          w refl;
  }

module _ {F W : Type 0} ⦃fl : Float F⦄ (db : Session F W) (writes : IsTransactional db)
    (reliable : IsReliable db) (users : List (Stored User)) where
  pub record IsEmptyBook (d : Tables F) : Type 0 where
    pub users_kept : d.users ≡ users
    pub no_position : d.positions ≡ []

  pub record HasOrder (d : Tables F) : Type 0 where
    pub users_kept : d.users ≡ users
    pub order : 1 ≤ length d.trade_orders

  record IsBooked (d : Tables F) : Type 0 where
    pub users_kept : d.users ≡ users
    pub no_position : d.positions ≡ []
    pub order : 1 ≤ length d.trade_orders

  upsert_position-HasOrder :
      (r : PositionRecord F)
      → Triple
          (On db writes reliable IsBooked)
          (upsert_position db r)
          (Gives tt (On db writes reliable HasOrder))
  unfolding upsert_position store_position one_or_none add_row
  upsert_position-HasOrder r =
      let R = Gives tt (On db writes reliable HasOrder) in
      reading db writes reliable IsBooked R _ (λ d h.
        Triple-gives R none _ _
          (Triple-lift (one_or_none (filter (has_symbol r.symbol) d.positions))
            (Gives none (On db writes reliable (λ x. x ≡ d)))
            (λ w k.
              (ap (λ rows. one_or_none (filter (has_symbol r.symbol) rows)) h.no_position, k)))
          (insert-Returns db writes reliable (λ x. x ≡ d) HasOrder _
            (λ x i t e. record { users_kept = rw e h.users_kept; order = rw e h.order })))

  pub insert_demo_data-HasOrder :
      Triple
        (On db writes reliable IsEmptyBook)
        (insert_demo_data db)
        (Gives true (On db writes reliable HasOrder))
  unfolding insert_demo_data create_audit_log create_strategy_run create_trade_order upsert_position
      create_reconciliation_run add_row
  insert_demo_data-HasOrder =
      let R = Gives true (On db writes reliable HasOrder) in
      Triple-gives R tt _ _
        (insert-Returns db writes reliable IsEmptyBook IsEmptyBook _
          (λ d i t h. record { users_kept = h.users_kept; no_position = h.no_position }))
        (Triple-gives R tt _ _
          (insert-Returns db writes reliable IsEmptyBook IsEmptyBook _
            (λ d i t h. record { users_kept = h.users_kept; no_position = h.no_position }))
          (Triple-gives R tt _ _
            (insert-Returns db writes reliable IsEmptyBook IsBooked _ (λ d i t h. record {
              users_kept = h.users_kept;
              no_position = h.no_position;
              order = append_nonempty _ _;
            }))
            (Triple-gives R tt _ _ (upsert_position-HasOrder demo_position) (
              Triple-gives R tt _ _
                (insert-Returns db writes reliable HasOrder HasOrder _
                  (λ d i t h. record { users_kept = h.users_kept; order = h.order }))
                (Triple-pure R true (λ w h. (refl, h)))))))
