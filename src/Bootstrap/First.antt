-- ===== src/Bootstrap/First.antt =====
-- The first start of the application, on a database without users.
use mathlib.Core.Path.{subst}
use day_trade_intellegence.Bootstrap.{
  create_if_none, create_local_user, ensure_local_user, ensure_local_users, seed_demo_data,
}
use day_trade_intellegence.Bootstrap.Frames.{seed_trading_data-Keeps}
use day_trade_intellegence.Bootstrap.Local.{
  LocalUser, MadeOf, append-MadeOf, local, local_users, made_none,
}
use day_trade_intellegence.Bootstrap.Seeded.{lookup-Gives}
use day_trade_intellegence.Core.Action.Triple.{
  Gives, Keeps, Keeps-bind, Keeps-lift, Triple, Triple-gives,
}
use day_trade_intellegence.Core.Float.{Float}
use day_trade_intellegence.Core.Settings.{Settings}
use day_trade_intellegence.Db.Models.{Position, Stored, Tables, User, add_row}
use day_trade_intellegence.Db.Session.{IsReliable, IsTransactional, Session, with_position}
use day_trade_intellegence.Domain.Reconciliation.{ReconciliationRunRecord}
use day_trade_intellegence.Domain.Trading.{PositionRecord}
use day_trade_intellegence.Orchestrator.Frames.{IsRecorded}
use day_trade_intellegence.Prelude.{
  All, IsAmong, List, Option, String, [], ap, codes, inl, inr, none, refl, some, sym, ℕ, ◌++◌, ◌∙◌,
  ◌∷◌, ◌≡◌, ◌≢◌,
}
use day_trade_intellegence.Repositories.{
  create_audit_log, create_reconciliation_run, create_strategy_run, create_trade_order, one_or_none,
  store_position, upsert_position,
}
use day_trade_intellegence.Repositories.Users.{create_user_inserts}
use day_trade_intellegence.Security.Crypto.{Crypto, IsCrypto}
use day_trade_intellegence.Security.Passwords.{hash_password, verify_password}
use day_trade_intellegence.Security.Passwords.Verification.{verify_password_iff}

module _ {F W : Type 0} (db : Session F W) (writes : IsTransactional db) (reliable : IsReliable db)
    (R : List (Stored User) → Type 0) where
  -- A view of the users.
  abbrev pub Users : W → Type 0
  Users w = R (db.tables w).users

  stored-Users :
      (r : PositionRecord F) (found : Option (Stored (Position F)))
      → Keeps Users (store_position db r found)
  unfolding store_position add_row with_position
  stored-Users r none = record { at = λ w h. rw (writes.insert_ok _ w (reliable.inserts _ w)) h }
  stored-Users r (some row) = record {
    at = λ w h. rw (writes.update_ok _ _ w (reliable.updates _ _ w)) h;
  }

  pub selects-Users : Keeps Users db.select
  selects-Users = record { at = λ w h. rw (writes.select_reads w) h }

  -- The writes of the demo data leave the users alone.
  pub Users-IsRecorded : IsRecorded db Users
  unfolding create_audit_log create_strategy_run create_trade_order upsert_position add_row
  Users-IsRecorded = record {
    audit = λ r. record { at = λ w h. rw (writes.insert_ok _ w (reliable.inserts _ w)) h };
    run = λ r. record { at = λ w h. rw (writes.insert_ok _ w (reliable.inserts _ w)) h };
    order = λ r. record { at = λ w h. rw (writes.insert_ok _ w (reliable.inserts _ w)) h };
    position =
        λ r. Keeps-bind _ _ selects-Users λ tables. Keeps-bind _ _ (Keeps-lift _) (stored-Users r);
  }

  pub run_stored-Users :
      (r : ReconciliationRunRecord F) → Keeps Users (create_reconciliation_run db r)
  unfolding create_reconciliation_run add_row
  run_stored-Users r = record { at = λ w h. rw (writes.insert_ok _ w (reliable.inserts _ w)) h }

module _ {F W : Type 0} ⦃fl : Float F⦄ (crypto : Crypto W) (laws : IsCrypto crypto)
    (text : List ℕ → String) (settings : Settings F) (db : Session F W)
    (writes : IsTransactional db) (reliable : IsReliable db)
    (salts : (w : W) → db.tables (crypto.token_hex w).1 ≡ db.tables w)
    (printed : (s : LocalUser) (w : W)
      → IsAmong s local_users
      → codes (text (hash_password crypto s.password w).0)
        ≡ (hash_password crypto s.password w).0) where
  abbrev Made : List LocalUser → W → Type 0
  Made ss w = MadeOf crypto ss (db.tables w).users

  create-Made :
      (ss : List LocalUser) (s : LocalUser)
      → IsAmong s local_users
      → Triple
          (Made ss)
          (create_local_user crypto text db s.username s.password s.role)
          (Gives tt (Made (ss ++ s ∷ [])))
  unfolding create_local_user add_row hash_password
  create-Made ss s among = record {
    at = λ w made. (
      (create_user_inserts db writes reliable _ _ _ _).0,
      rw
          (
            (create_user_inserts db writes reliable _ _ _ _).1,
            writes.insert_ok _ _ (reliable.inserts _ _),
            salts w,
          )
          (append-MadeOf crypto ss (db.tables w).users s _ made (record {
            name = refl;
            role_held = refl;
            active = refl;
            known =
                ap (verify_password crypto s.password) (printed s w among)
                ∙ (verify_password_iff crypto laws s.password [] w).1;
          })),
    );
  }

  ensure-Made :
      (ss : List LocalUser) (s : LocalUser)
      → IsAmong s local_users
      → All (λ t. t.username ≢ s.username) ss
      → Triple
          (Made ss)
          (ensure_local_user crypto text db s.username s.password s.role)
          (Gives tt (Made (ss ++ s ∷ [])))
  unfolding ensure_local_user create_if_none one_or_none
  ensure-Made ss s among apart = record {
    at = λ w made.
        let d = db.tables w in
        (Triple-gives (Gives tt (Made (ss ++ s ∷ []))) none _ _
            (lookup-Gives crypto text settings db writes reliable d s.username none
              (ap one_or_none (made_none crypto ss d.users s.username made apart)))
            (record {
              at = λ v h.
                  (create-Made ss s among).at v
                    (subst (λ (x : Tables F). MadeOf crypto ss x.users) (sym h) made);
            })).at
          w refl;
  }

  ensure_all-Made :
      Triple (Made []) (ensure_local_users crypto text db) (Gives tt (Made local_users))
  unfolding ensure_local_users
  ensure_all-Made =
      let R = Gives tt (Made local_users) in
      Triple-gives R tt _ _ (ensure-Made [] (local "trader" "trader123" "TRADER") (inl refl) tt) (
        Triple-gives R tt _ _
          (ensure-Made (local "trader" "trader123" "TRADER" ∷ [])
            (local "operator" "operator123" "OPERATOR") (inr (inl refl)) ((λ e. cc e), tt))
          (ensure-Made
            (local "trader" "trader123" "TRADER" ∷ local "operator" "operator123" "OPERATOR" ∷ [])
            (local "admin" "admin123" "ADMIN") (inr (inr (inl refl)))
            ((λ e. cc e), ((λ e. cc e), tt))))

  -- The three users are there after the start, whatever becomes of the demo data.
  pub seed_demo_data-Made :
      Triple (Made []) (seed_demo_data crypto text settings db) (λ r. Made local_users)
  unfolding seed_demo_data
  seed_demo_data-Made =
      Triple-gives (λ r. Made local_users) tt _ _ ensure_all-Made
        (seed_trading_data-Keeps settings db
          (Users-IsRecorded db writes reliable (MadeOf crypto local_users))
          (run_stored-Users db writes reliable (MadeOf crypto local_users))
          (selects-Users db writes reliable (MadeOf crypto local_users)))
