-- ===== src/Bootstrap/Twice.antt =====
-- Two starts of the application, one after the other.
use mathlib.Core.Path.{subst}
use day_trade_intellegence.Bootstrap.{
  has_trading_records, insert_demo_data, seed_demo_data, seed_trading_data,
}
use day_trade_intellegence.Bootstrap.Seeded.{
  has_trading_records-Gives, local_usernames, seed_demo_data_idle,
}
use day_trade_intellegence.Bootstrap.Steps.{IsReady, insert_demo_data-HasOrder, select-At}
use day_trade_intellegence.Bootstrap.Users.{all_users, ensure_all-Ready}
use day_trade_intellegence.Core.Action.{Result, err, ok}
use day_trade_intellegence.Core.Action.Triple.{
  Gives, Returns, Triple, Triple-gives, Triple-if, Triple-pure,
}
use day_trade_intellegence.Core.Float.{Float}
use day_trade_intellegence.Core.Settings.{Settings}
use day_trade_intellegence.Db.Models.{Tables}
use day_trade_intellegence.Db.Session.{IsReliable, IsTransactional, Session}
use day_trade_intellegence.Prelude.{
  Bool, Bool-cases, IsAmong, List, String, [], ap, arith, false, inl, inr, length, ltb, not, refl,
  sym, true, ℕ, ◌+◌, ◌∙◌, ◌∷◌, ◌≡◌, ◌≤◌,
}
use day_trade_intellegence.Security.Access.Lookup.{rows_of}
use day_trade_intellegence.Security.Crypto.{Crypto}

returned :
    {W A : Type 0} (Q : W → Type 0) (r : Result A) (w : W)
    → Returns Q r w
    → (a : A) × (r ≡ ok a) × Q w
returned Q (ok a) w h = (a, refl, h)
returned Q (err e) w h = absurd h

ok-Returns :
    {W A : Type 0} (Q : W → Type 0) (a : A) (r : Result A) (w : W)
    → (r ≡ ok a)
    → Q w
    → Returns Q r w
ok-Returns Q a r w e q = subst (λ x. Returns Q x w) (sym e) q

none_of : {A : Type 0} (xs : List A) → length xs ≡ 0 → xs ≡ []
none_of [] e = refl
none_of (x ∷ xs) e = absurd (omega (arith, e))

module _ {F W : Type 0} ⦃fl : Float F⦄ (crypto : Crypto W) (text : List ℕ → String)
    (settings : Settings F) (db : Session F W) (writes : IsTransactional db)
    (reliable : IsReliable db)
    (salts : (w : W) → db.tables (crypto.token_hex w).1 ≡ db.tables w) where
  -- What a start leaves: the users, and trading records unless demo data is switched off.
  record IsSettled (d : Tables F) : Type 0 where
    pub ready : IsReady all_users d.users
    pub records : settings.seed_demo_data ≡ true → 1 ≤ length d.trade_orders + length d.positions

  abbrev Settled : W → Type 0
  Settled w = IsSettled (db.tables w)

  no_records-Gives :
      (d : Tables F)
      → length d.trade_orders + length d.positions ≡ 0
      → Triple (λ w. db.tables w ≡ d) (has_trading_records db) (Gives false (λ w. db.tables w ≡ d))
  unfolding has_trading_records
  no_records-Gives d nothing =
      let R = Gives false (λ w. db.tables w ≡ d) in
      let reads = select-At db writes reliable d in
      Triple-gives R d _ _ reads (
        Triple-if (ltb 0 (length d.trade_orders)) _ _ (λ e. absurd (ground (arith, e, nothing)))
          (λ e. Triple-gives R d _ _ reads (
            Triple-pure R (ltb 0 (length d.positions))
              (λ w h. (ap ok (ground (arith, nothing)), h)))))

  demo_data-Settled :
      (d : Tables F)
      → IsReady all_users d.users
      → length d.trade_orders + length d.positions ≡ 0
      → Triple (λ w. db.tables w ≡ d) (insert_demo_data db) (Returns Settled)
  demo_data-Settled d ready nothing = record {
    at = λ w h.
        let (inserted, order) =
          (insert_demo_data-HasOrder db writes reliable d.users).at w (record {
            users_kept = ap (λ x. x.users) h;
            no_position = ap (λ x. x.positions) h ∙ none_of d.positions (omega (arith, nothing));
          }) in
        ok-Returns Settled true _ _ inserted (record {
          ready = rw (order.users_kept) ready;
          records = λ e. omega (arith, order.order);
        });
  }

  trading_data-Settled :
      (d : Tables F)
      → IsReady all_users d.users
      → Triple (λ w. db.tables w ≡ d) (seed_trading_data db settings) (Returns Settled)
  unfolding seed_trading_data
  trading_data-Settled d ready =
      Triple-if (not settings.seed_demo_data) _ _
        (λ e.
          Triple-pure (Returns Settled) false
            (λ w h. rw h (record { ready = ready; records = λ on. cc (e, on) })))
        (λ e. elim (Bool-cases (ltb 0 (length d.trade_orders + length d.positions))) [
          | inl some_record ↦
              Triple-gives (Returns Settled) true _ _
                (has_trading_records-Gives crypto text settings db writes reliable d
                  (ground (arith, some_record)))
                (Triple-pure (Returns Settled) false (λ w h.
                  rw h (record { ready = ready; records = λ on. ground (arith, some_record) })))
          | inr nothing ↦
              Triple-gives (Returns Settled) false _ _
                (no_records-Gives d (ground (arith, nothing)))
                (demo_data-Settled d ready (ground (arith, nothing)))
        ])

  seed_demo_data-Settled :
      Triple
        (λ w. IsReady [] (db.tables w).users)
        (seed_demo_data crypto text settings db)
        (Returns Settled)
  unfolding seed_demo_data
  seed_demo_data-Settled =
      Triple-gives (Returns Settled) tt _ _
        (ensure_all-Ready crypto text settings db writes reliable salts)
        (record { at = λ w ready. (trading_data-Settled (db.tables w) ready).at w refl })

  settled_single :
      (d : Tables F)
      → IsReady all_users d.users
      → (username : String) → IsAmong username local_usernames
      → length (rows_of db d username) ≡ 1
  settled_single d ready username among =
      let most = ready.few username in
      let least = ready.known username (turned among) in omega (arith, most, least)
    where
      turned : IsAmong username local_usernames → IsAmong username all_users
      turned (inl e) = inr (inr (inl e))
      turned (inr (inl e)) = inr (inl e)
      turned (inr (inr (inl e))) = inl e
      turned (inr (inr (inr none_left))) = elim none_left [ ]

  -- Where the database does not fail, no username has two rows and drawing a salt leaves the
  -- database alone, a start of the application returns, and the next start with the same settings
  -- inserts nothing and returns False.
  pub seed_demo_data_twice :
      (w : W)
      → ((username : String) → length (rows_of db (db.tables w) username) ≤ 1)
      → ((seeded : Bool) × ((seed_demo_data crypto text settings db w).0 ≡ ok seeded))
        × ((seed_demo_data crypto text settings db (seed_demo_data crypto text settings db w).1).0
            ≡ ok false)
        × (db.tables
              (seed_demo_data crypto text settings db
                (seed_demo_data crypto text settings db w).1).1
            ≡ db.tables (seed_demo_data crypto text settings db w).1)
  seed_demo_data_twice w unique =
      let after = (seed_demo_data crypto text settings db w).1 in
      let (seeded, ended, settled) =
        returned Settled _ after
          (seed_demo_data-Settled.at w (record { few = unique; known = λ v m. elim m [ ] })) in
      let (idle, same) =
        seed_demo_data_idle crypto text settings db writes reliable after
          (settled_single (db.tables after) settled.ready) settled.records in
      ((seeded, ended), idle, same)
