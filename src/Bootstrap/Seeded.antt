-- ===== src/Bootstrap/Seeded.antt =====
-- A start of the application on a database that has its users and its trading records.
use day_trade_intellegence.Bootstrap.{
  create_if_none, ensure_local_user, ensure_local_users, has_trading_records, seed_demo_data,
  seed_trading_data,
}
use day_trade_intellegence.Core.Action.{ok}
use day_trade_intellegence.Core.Action.Triple.{
  Gives, Triple, Triple-gives, Triple-if, Triple-lift, Triple-pure,
}
use day_trade_intellegence.Core.Float.{Float}
use day_trade_intellegence.Core.Settings.{Settings}
use day_trade_intellegence.Db.Models.{Stored, Tables, User}
use day_trade_intellegence.Db.Session.{IsReliable, IsTransactional, Session}
use day_trade_intellegence.Prelude.{
  Bool, IsAmong, List, Option, String, [], ap, arith, false, inl, inr, length, ltb, not, refl, some,
  true, ℕ, ◌+◌, ◌∙◌, ◌∷◌, ◌≡◌, ◌≤◌,
}
use day_trade_intellegence.Repositories.{get_by_username, one_or_none}
use day_trade_intellegence.Security.Access.Lookup.{rows_of}
use day_trade_intellegence.Security.Crypto.{Crypto}

abbrev pub local_usernames : List String
local_usernames = "trader" ∷ "operator" ∷ "admin" ∷ []

only_one : {A : Type 0} (xs : List A) → length xs ≡ 1 → (x : A) × (xs ≡ x ∷ [])
only_one [] single = absurd (omega (arith, single))
only_one (x ∷ []) single = (x, refl)
only_one (x ∷ y ∷ xs) single = absurd (omega (arith, single))

pub switched_on : (b : Bool) → not b ≡ false → b ≡ true
switched_on true e = refl
switched_on false e = cc

module _ {F W : Type 0} ⦃fl : Float F⦄ (crypto : Crypto W) (text : List ℕ → String)
    (settings : Settings F) (db : Session F W) (writes : IsTransactional db)
    (reliable : IsReliable db) (d : Tables F) where
  abbrev At : W → Type 0
  At w = db.tables w ≡ d

  reads : Triple At db.select (Gives d At)
  reads = record { at = λ w h. (reliable.selects w ∙ ap ok h, writes.select_reads w ∙ h) }

  pub lookup-Gives :
      (username : String) (found : Option (Stored User))
      → one_or_none (rows_of db d username) ≡ ok found
      → Triple At (get_by_username db username) (Gives found At)
  unfolding get_by_username
  lookup-Gives username found e =
      Triple-gives (Gives found At) d _ _ reads
        (Triple-lift (one_or_none (rows_of db d username)) (Gives found At) (λ w h. (e, h)))

  ensure-Gives :
      (username password role : String)
      → length (rows_of db d username) ≡ 1
      → Triple At (ensure_local_user crypto text db username password role) (Gives tt At)
  unfolding ensure_local_user create_if_none one_or_none
  ensure-Gives username password role single =
      let (row, found) = only_one (rows_of db d username) single in
      Triple-gives (Gives tt At) (some row) _ _
        (lookup-Gives username (some row) (ap one_or_none found))
        (Triple-pure (Gives tt At) tt (λ w h. (refl, h)))

  ensure_all-Gives :
      ((username : String) → IsAmong username local_usernames → length (rows_of db d username) ≡ 1)
      → Triple At (ensure_local_users crypto text db) (Gives tt At)
  unfolding ensure_local_users
  ensure_all-Gives single =
      Triple-gives (Gives tt At) tt _ _
        (ensure-Gives "trader" "trader123" "TRADER" (single "trader" (inl refl)))
        (Triple-gives (Gives tt At) tt _ _
          (ensure-Gives "operator" "operator123" "OPERATOR" (single "operator" (inr (inl refl))))
          (ensure-Gives "admin" "admin123" "ADMIN" (single "admin" (inr (inr (inl refl))))))

  pub has_trading_records-Gives :
      1 ≤ length d.trade_orders + length d.positions
      → Triple At (has_trading_records db) (Gives true At)
  unfolding has_trading_records
  has_trading_records-Gives some_record = Triple-gives (Gives true At) d _ _ reads (
      Triple-if (ltb 0 (length d.trade_orders)) _ _
        (λ e. Triple-pure (Gives true At) true (λ w h. (refl, h)))
        (λ e. Triple-gives (Gives true At) d _ _ reads (
          Triple-pure (Gives true At) (ltb 0 (length d.positions))
            (λ w h. (ap ok (ground (arith, e, some_record)), h)))))

  seed_trading_data-Gives :
      (settings.seed_demo_data ≡ true → 1 ≤ length d.trade_orders + length d.positions)
      → Triple At (seed_trading_data db settings) (Gives false At)
  unfolding seed_trading_data
  seed_trading_data-Gives some_record =
      Triple-if (not settings.seed_demo_data) _ _
        (λ e. Triple-pure (Gives false At) false (λ w h. (refl, h)))
        (λ e.
          Triple-gives (Gives false At) true _ _
            (has_trading_records-Gives (some_record (switched_on settings.seed_demo_data e)))
            (Triple-pure (Gives false At) false (λ w h. (refl, h))))

module _ {F W : Type 0} ⦃fl : Float F⦄ (crypto : Crypto W) (text : List ℕ → String)
    (settings : Settings F) (db : Session F W) (writes : IsTransactional db)
    (reliable : IsReliable db) where
  -- Where the database does not fail, has each of the three local users once, and has an order or a
  -- position unless demo data is switched off, a start of the application inserts nothing and says so.
  pub seed_demo_data_idle :
      (w : W)
      → ((username : String)
          → IsAmong username local_usernames
          → length (rows_of db (db.tables w) username) ≡ 1)
      → (settings.seed_demo_data ≡ true
          → 1 ≤ length (db.tables w).trade_orders + length (db.tables w).positions)
      → ((seed_demo_data crypto text settings db w).0 ≡ ok false)
        × (db.tables (seed_demo_data crypto text settings db w).1 ≡ db.tables w)
  unfolding seed_demo_data
  seed_demo_data_idle w single some_record =
      (Triple-gives (Gives false (At crypto text settings db writes reliable (db.tables w))) tt _ _
          (ensure_all-Gives crypto text settings db writes reliable (db.tables w) single)
          (seed_trading_data-Gives crypto text settings db writes reliable (db.tables w)
            some_record)).at
        w refl
