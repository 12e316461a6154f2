-- ===== src/System/Start.antt =====
-- A start of the application keeps the tables consistent, and closes the session that it opens.
use mathlib.Core.Path.{subst}
use day_trade_intellegence.Api.Check.{opened}
use day_trade_intellegence.Api.Stable.{with_session-Keeps}
use day_trade_intellegence.Bootstrap.{
  bootstrap_or_skip, create_if_none, create_local_user, ensure_local_user, ensure_local_users,
  initialize_database_schema, seed_demo_data,
}
use day_trade_intellegence.Bootstrap.Frames.{seed_trading_data-Keeps}
use day_trade_intellegence.Bootstrap.Steps.{count}
use day_trade_intellegence.Core.Action.{Result, ok}
use day_trade_intellegence.Core.Action.Triple.{
  Keeps, Keeps-bind, Keeps-if, Keeps-pure, Keeps-raise, Triple, Triple-bind, Triple-lift,
  Triple-pure,
}
use day_trade_intellegence.Core.Float.{Float}
use day_trade_intellegence.Db.Models.{Entity, Stored, User, add_row}
use day_trade_intellegence.Dependencies.{Platform}
use day_trade_intellegence.Prelude.{
  List, Option, String, [], length, none, refl, some, sym, true, ℕ, ◌∷◌, ◌≡◌,
}
use day_trade_intellegence.Repositories.{create_user, get_by_username, one_or_none}
use day_trade_intellegence.Security.Passwords.{hash_password}
use day_trade_intellegence.System.{application_lifespan}
use day_trade_intellegence.System.Consistent.{IsConsistent, insert_user-IsConsistent}
use day_trade_intellegence.System.Stores.{
  IsContained, Sound, insert_at, outside-Sound, reading_tables, recorded-Sound, run_stored-Sound,
  selected-Sound, stable-Sound,
}

none_found :
    (rows : List (Stored User))
    → Path (Result (Option (Stored User))) (one_or_none rows) (ok none)
    → length rows ≡ 0
unfolding one_or_none
none_found [] e = refl
none_found (row ∷ []) e = cc
none_found (row ∷ other ∷ rows) e = cc

module _ {F W : Type 0} (platform : Platform F W) (contained : IsContained platform) where
  lookup-Sound :
      (username : String) (n : ℕ)
      → Triple (Sound platform contained n) (get_by_username platform.ext.db username) (λ r w.
        Sound platform contained n w
        × (r ≡ ok none → count username (platform.ext.db.tables w).users ≡ 0))
  unfolding get_by_username
  lookup-Sound username n =
      reading_tables platform contained n _ _
        (λ d. Triple-lift _ _ λ w (sound, here). (sound, λ e. rw here (none_found _ e)))
        (λ e w h. (h, λ k. cc k))

  create-Sound :
      (username password role : String) (n : ℕ)
      → Triple
          (λ w.
            Sound platform contained n w × (count username (platform.ext.db.tables w).users ≡ 0))
          (create_local_user platform.crypto platform.text platform.ext.db username password role)
          (λ r. Sound platform contained n)
  unfolding create_local_user create_user hash_password add_row
  create-Sound username password role n = record {
    at = λ w (sound, unknown).
        let (tables, opened) =
          (contained.outside n (platform.ext.db.tables w)).salted w (refl, sound.1) in
        let kept : IsConsistent (platform.ext.db.tables (platform.crypto.token_hex w).1) =
          rw tables sound.0 in
        let v = (platform.crypto.token_hex w).1 in
        let user : User = record {
          username = username;
          password_hash = platform.text (hash_password platform.crypto password w).0;
          role = role;
          is_active = true;
        } in
        let stored : Sound platform contained n (platform.ext.db.insert (Entity.user user) v).1 =
          insert_at platform contained (Entity.user user) n v (kept, opened)
            (insert_user-IsConsistent user _ _ _ kept
              (subst (λ d. count username d.users ≡ 0) (sym tables) unknown)) in
        (Triple-bind {P = λ u. u ≡ v} (λ r. Sound platform contained n)
            (λ r. Sound platform contained n) _ _
            (record {
              at = λ u same.
                  subst
                    (λ x.
                      Sound platform contained n (platform.ext.db.insert (Entity.user user) x).1)
                    (sym same) stored;
            })
            (λ u. Keeps-bind _ _ (selected-Sound platform contained n) λ d. Keeps-pure _)
            (λ e u h. h)).at
          v refl;
  }

  ensure-Sound :
      (username password role : String) (n : ℕ)
      → Keeps
          (Sound platform contained n)
          (ensure_local_user platform.crypto platform.text platform.ext.db username password role)
  unfolding ensure_local_user create_if_none
  ensure-Sound username password role n =
      Triple-bind _ (λ r. Sound platform contained n) _ _ (lookup-Sound username n)
        (λ user. created user) (λ e w h. h.0)
    where
      created :
          (user : Option (Stored User))
          → Triple
              (λ w.
                Sound platform contained n w
                × (Path (Result (Option (Stored User))) (ok user) (ok none)
                    → count username (platform.ext.db.tables w).users ≡ 0))
              (create_if_none platform.crypto platform.text platform.ext.db username password role
                user)
              (λ r. Sound platform contained n)
      created none = record {
        at = λ w (sound, k). (create-Sound username password role n).at w (sound, k refl);
      }
      created (some user) = Triple-pure _ tt λ w h. h.0

  ensure_all-Sound :
      (n : ℕ)
      → Keeps
          (Sound platform contained n)
          (ensure_local_users platform.crypto platform.text platform.ext.db)
  unfolding ensure_local_users
  ensure_all-Sound n =
      Keeps-bind _ _ (ensure-Sound _ _ _ n)
        λ trader. Keeps-bind _ _ (ensure-Sound _ _ _ n) λ operator. ensure-Sound _ _ _ n

module _ {F W : Type 0} ⦃fl : Float F⦄ (platform : Platform F W)
    (contained : IsContained platform) where
  seed_demo_data-Sound :
      (n : ℕ)
      → Keeps
          (Sound platform contained n)
          (seed_demo_data platform.crypto platform.text platform.settings platform.ext.db)
  unfolding seed_demo_data
  seed_demo_data-Sound n = Keeps-bind _ _ (ensure_all-Sound platform contained n) λ u.
      seed_trading_data-Keeps platform.settings platform.ext.db
        (recorded-Sound platform contained n) (run_stored-Sound platform contained n)
        (selected-Sound platform contained n)

  schema-Sound :
      (n : ℕ)
      → Keeps
          (Sound platform contained n)
          (initialize_database_schema platform.settings platform.migrations)
  unfolding initialize_database_schema bootstrap_or_skip
  schema-Sound n =
      let created =
        outside-Sound platform contained platform.migrations.create_all n
          (λ d. (contained.outside n d).created) in
      let upgraded =
        outside-Sound platform contained platform.migrations.upgrade_head n
          (λ d. (contained.outside n d).upgraded) in
      Keeps-if _ _ _ (Keeps-if _ _ _ (Keeps-raise _) (Keeps-bind _ _ upgraded λ u. Keeps-pure _)) (
        Keeps-if _ _ _ (Keeps-bind _ _ created λ u. Keeps-pure _)
          (Keeps-if _ _ _ (Keeps-pure _) (Keeps-raise _)))

  pub application_lifespan-Sound :
      (n : ℕ) → Keeps (Sound platform contained n) (application_lifespan platform)
  unfolding application_lifespan
  application_lifespan-Sound n = Keeps-bind _ _ (schema-Sound n) λ bootstrap_mode.
      Keeps-bind _ _
        (with_session-Keeps platform (stable-Sound platform contained) _ seed_demo_data-Sound n)
        λ seeded. Keeps-pure _
