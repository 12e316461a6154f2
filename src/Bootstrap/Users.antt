-- ===== src/Bootstrap/Users.antt =====
-- The local users that a start creates where they are missing.
use mathlib.Core.Path.{subst}
use day_trade_intellegence.Bootstrap.{
  create_if_none, create_local_user, ensure_local_user, ensure_local_users,
}
use day_trade_intellegence.Bootstrap.Seeded.{lookup-Gives}
use day_trade_intellegence.Bootstrap.Steps.{IsReady, append-IsReady, count}
use day_trade_intellegence.Core.Action.Triple.{Gives, Triple, Triple-gives, Triple-pure}
use day_trade_intellegence.Core.Float.{Float}
use day_trade_intellegence.Core.Settings.{Settings}
use day_trade_intellegence.Db.Models.{Stored, Tables, User, add_row}
use day_trade_intellegence.Db.Session.{IsReliable, IsTransactional, Session}
use day_trade_intellegence.Prelude.{
  List, String, [], ap, arith, inl, inr, length, none, refl, some, sym, ℕ, ◌∷◌, ◌≡◌, ◌≤◌,
}
use day_trade_intellegence.Repositories.{one_or_none}
use day_trade_intellegence.Repositories.Users.{create_user_inserts}
use day_trade_intellegence.Security.Access.Lookup.{rows_of}
use day_trade_intellegence.Security.Crypto.{Crypto}
use day_trade_intellegence.Security.Passwords.{hash_password}

abbrev pub all_users : List String
all_users = "admin" ∷ "operator" ∷ "trader" ∷ []

module _ {F W : Type 0} ⦃fl : Float F⦄ (crypto : Crypto W) (text : List ℕ → String)
    (settings : Settings F) (db : Session F W) (writes : IsTransactional db)
    (reliable : IsReliable db)
    (salts : (w : W) → db.tables (crypto.token_hex w).1 ≡ db.tables w) where
  abbrev Ready : List String → W → Type 0
  Ready present w = IsReady present (db.tables w).users

  create-Ready :
      (present : List String) (username password role : String) (d : Tables F)
      → IsReady present d.users
      → count username d.users ≡ 0
      → Triple
          (λ w. db.tables w ≡ d)
          (create_local_user crypto text db username password role)
          (Gives tt (Ready (username ∷ present)))
  unfolding create_local_user hash_password add_row
  create-Ready present username password role d ready unknown = record {
    at = λ w h. (
      (create_user_inserts db writes reliable _ _ _ _).0,
      rw
          (
            (create_user_inserts db writes reliable _ _ _ _).1,
            writes.insert_ok _ _ (reliable.inserts _ _),
            salts w,
            h,
          )
          (append-IsReady present d.users _ ready unknown),
    );
  }

  known_already :
      (present : List String) (username : String) (users : List (Stored User))
      → IsReady present users
      → count username users ≡ 1
      → IsReady (username ∷ present) users
  known_already present username users ready single = record {
    few = ready.few;
    known = λ v m. elim m [
      | inl p ↦ subst (λ u. 1 ≤ count u users) (sym p) (omega (arith, single))
      | inr n ↦ ready.known v n
    ];
  }

  ensure_by_rows :
      (present : List String) (username password role : String) (d : Tables F)
      → IsReady present d.users
      → (rows : List (Stored User)) → rows_of db d username ≡ rows
      → length rows ≤ 1
      → Triple
          (λ w. db.tables w ≡ d)
          (ensure_local_user crypto text db username password role)
          (Gives tt (Ready (username ∷ present)))
  unfolding ensure_local_user create_if_none one_or_none
  ensure_by_rows present username password role d ready [] e few =
      Triple-gives (Gives tt (Ready (username ∷ present))) none _ _
        (lookup-Gives crypto text settings db writes reliable d username none (ap one_or_none e))
        (create-Ready present username password role d ready (ap length e))
  ensure_by_rows present username password role d ready (row ∷ []) e few =
      Triple-gives (Gives tt (Ready (username ∷ present))) (some row) _ _
        (lookup-Gives crypto text settings db writes reliable d username (some row)
          (ap one_or_none e))
        (Triple-pure (Gives tt (Ready (username ∷ present))) tt
          (λ w h. (refl, rw h (known_already present username d.users ready (ap length e)))))
  ensure_by_rows present username password role d ready (row ∷ other ∷ rows) e few =
      absurd (omega (arith, few))

  ensure-Ready :
      (present : List String) (username password role : String)
      → Triple
          (Ready present)
          (ensure_local_user crypto text db username password role)
          (Gives tt (Ready (username ∷ present)))
  ensure-Ready present username password role = record {
    at = λ w ready.
        (ensure_by_rows present username password role (db.tables w) ready
            (rows_of db (db.tables w) username) refl (ready.few username)).at
          w refl;
  }

  pub ensure_all-Ready :
      Triple
        (λ w. IsReady [] (db.tables w).users)
        (ensure_local_users crypto text db)
        (Gives tt (λ w. IsReady all_users (db.tables w).users))
  unfolding ensure_local_users
  ensure_all-Ready =
      Triple-gives (Gives tt (Ready all_users)) tt _ _
        (ensure-Ready [] "trader" "trader123" "TRADER")
        (Triple-gives (Gives tt (Ready all_users)) tt _ _
          (ensure-Ready ("trader" ∷ []) "operator" "operator123" "OPERATOR")
          (ensure-Ready ("operator" ∷ "trader" ∷ []) "admin" "admin123" "ADMIN"))
