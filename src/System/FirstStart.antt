-- ===== src/System/FirstStart.antt =====
-- From the first start of the application to the first login.
use day_trade_intellegence.Api.Routes
use day_trade_intellegence.Api.Check.{IsNeutral, opened}
use day_trade_intellegence.Bootstrap.{bootstrap_or_skip, initialize_database_schema, seed_demo_data}
use day_trade_intellegence.Bootstrap.First.{seed_demo_data-Made}
use day_trade_intellegence.Bootstrap.Local.{
  LocalUser, MadeOf, local_users, local_users-Apart, made_found, named,
}
use day_trade_intellegence.Bootstrap.Twice.{seed_demo_data_twice}
use day_trade_intellegence.Core.Action.{Action, Result, gets, lift, ok, pure, try_finally, ◌>>=◌}
use day_trade_intellegence.Core.Action.Recover.{bind_ok}
use day_trade_intellegence.Core.Float.{Float}
use day_trade_intellegence.Core.Settings.{Settings}
use day_trade_intellegence.Db.Factory.{with_session}
use day_trade_intellegence.Db.Models.{Stored, Tables, User}
use day_trade_intellegence.Db.Session.{IsReliable, IsTransactional}
use day_trade_intellegence.Dependencies.{Platform, get_auth_service}
use day_trade_intellegence.Domain.Auth.{TokenResponse, UserRead}
use day_trade_intellegence.External.{External}
use day_trade_intellegence.Prelude.{
  Bool, IsAmong, String, [], ap, arith, codes, false, filter, refl, some, str_eq, true, ◌∙◌, ◌∷◌,
  ◌≡◌,
}
use day_trade_intellegence.Repositories.{get_by_username}
use day_trade_intellegence.Security.Access.Lookup.{get_by_username_lem}
use day_trade_intellegence.Security.Crypto.{Crypto, IsCrypto}
use day_trade_intellegence.Security.Login.{check_user, login, token_response, user_read}
use day_trade_intellegence.Security.Passwords.{hash_password, verify_password}
use day_trade_intellegence.System.{application_lifespan}

-- Where the user has the right password and is active, the login answers.
login_accepts :
    {F W : Type 0} (crypto : Crypto W) (settings : Settings F) (ext : External F W)
    (writes : IsTransactional ext.db) (reliable : IsReliable ext.db) (username password : String)
    (row : Stored User) (w : W)
    → filter (λ r. str_eq r.columns.username username) (ext.db.tables w).users ≡ row ∷ []
    → row.columns.is_active ≡ true
    → verify_password crypto password (codes row.columns.password_hash) ≡ true
    → (response : TokenResponse) × ((login crypto settings ext username password w).0 ≡ ok response)
      × (response.user ≡ user_read row)
unfolding login token_response check_user gets lift ◌>>=◌
login_accepts crypto settings ext writes reliable username password row w found active known =
    let v = (get_by_username ext.db username w).1 in
    let found_row = get_by_username_lem ext.db writes reliable username row w found in
    (
      token_response crypto settings (ext.python.now v) row,
      ap (λ x. x.0)
            (bind_ok (get_by_username ext.db username)
              (λ user.
                gets ext.python.now >>= λ now. lift (check_user crypto settings password now user))
              w (some row) found_row)
          ∙ rw (active, known) refl,
      refl,
    )

-- Creating the schema succeeds and adds no row.
pub record IsCreated {F W : Type 0} (platform : Platform F W) : Type 0 where
  pub succeeds : (w : W) → (platform.migrations.create_all w).0 ≡ ok tt
  pub unwritten :
      (w : W)
      → platform.ext.db.tables (platform.migrations.create_all w).1 ≡ platform.ext.db.tables w

module _ {F W : Type 0} ⦃fl : Float F⦄ (platform : Platform F W) (laws : IsCrypto platform.crypto)
    (created : IsCreated platform) (neutral : IsNeutral platform)
    (writes : IsTransactional platform.ext.db) (reliable : IsReliable platform.ext.db)
    (salts : (w : W)
      → platform.ext.db.tables (platform.crypto.token_hex w).1 ≡ platform.ext.db.tables w)
    (printed : (s : LocalUser) (w : W)
      → IsAmong s local_users
      → codes (platform.text (hash_password platform.crypto s.password w).0)
        ≡ (hash_password platform.crypto s.password w).0)
    (own_schema : platform.settings.run_migrations_on_start ≡ false)
    (bootstrap : platform.settings.bootstrap_schema ≡ true) where
  abbrev made : W → W
  made w = (platform.migrations.create_all w).1

  abbrev seeding : Action W Bool
  seeding = seed_demo_data platform.crypto platform.text platform.settings platform.ext.db

  abbrev seed : W → Result Bool × W
  seed w = seeding (opened platform (made w))

  schema_made :
      (w : W)
      → initialize_database_schema platform.settings platform.migrations w ≡ (ok "metadata", made w)
  unfolding initialize_database_schema bootstrap_or_skip pure
  schema_made w =
      rw (own_schema, bootstrap)
        (bind_ok platform.migrations.create_all (λ u. pure "metadata") w tt (created.succeeds w))

  no_users :
      (w : W)
      → (platform.ext.db.tables w).users ≡ []
      → (platform.ext.db.tables (opened platform (made w))).users ≡ []
  no_users w empty = rw (neutral.open_tables (made w), created.unwritten w) empty

  seed_returns :
      (w : W) → (platform.ext.db.tables w).users ≡ [] → (seeded : Bool) × ((seed w).0 ≡ ok seeded)
  seed_returns w empty =
      (seed_demo_data_twice platform.crypto platform.text platform.settings platform.ext.db writes
        reliable salts (opened platform (made w))
        (λ username. rw (no_users w empty) (omega arith))).0

  lifespan_lem :
      (w : W)
      → (platform.ext.db.tables w).users ≡ []
      → application_lifespan platform w ≡ (ok tt, platform.sessions.close_session (seed w).1)
  unfolding application_lifespan with_session try_finally pure
  lifespan_lem w empty =
      let (seeded, ended) = seed_returns w empty in
      let rest : Action W (Unit {0}) =
        with_session platform.sessions seeding >>= λ seeded. pure tt in
      bind_ok (initialize_database_schema platform.settings platform.migrations) (λ mode. rest) w
        "metadata" (ap (λ x. x.0) (schema_made w))
      ∙ ap (λ x. rest x.1) (schema_made w)
      ∙ bind_ok (with_session platform.sessions seeding) (λ seeded. pure tt) (made w) seeded ended

  -- Where the database does not fail, the schema can be made, drawing a salt leaves the database alone
  -- and a stored hash is printed as it is, and under the laws of the cryptographic functions and
  -- settings that let the application make its schema, a first start on a database without users
  -- returns; and as long as the tables are as it left them, a login of each of the three local users
  -- with the password that the code gives them is answered, with the role of this user.
  pub first_login :
      (w later : W)
      → (platform.ext.db.tables w).users ≡ []
      → platform.ext.db.tables later ≡ platform.ext.db.tables (application_lifespan platform w).1
      → (s : LocalUser) → IsAmong s local_users
      → ((application_lifespan platform w).0 ≡ ok tt)
        × ((response : TokenResponse) × ((Routes.login_route platform s.username s.password later).0
              ≡ ok response)
            × (response.user.role ≡ s.role))
  unfolding Routes.login_route get_auth_service with_session try_finally user_read
  first_login w later empty same s among =
      let started = lifespan_lem w empty in
      let users : MadeOf platform.crypto local_users (platform.ext.db.tables (seed w).1).users =
        (seed_demo_data-Made platform.crypto laws platform.text platform.settings platform.ext.db
            writes reliable salts printed).at
          (opened platform (made w)) (rw (no_users w empty) tt) in
      let (row, found, local_row) =
        made_found platform.crypto local_users _ s users local_users-Apart among in
      let tables : platform.ext.db.tables (opened platform later)
          ≡ platform.ext.db.tables (seed w).1 =
        neutral.open_tables later
        ∙ same
        ∙ ap (λ x. platform.ext.db.tables x.1) started
        ∙ neutral.close_tables (seed w).1 in
      let (response, answered, owner) =
        login_accepts platform.crypto platform.settings platform.ext writes reliable s.username
          s.password row (opened platform later)
          (ap (λ (d : Tables F). named s.username d.users) tables ∙ found) local_row.active
          local_row.known in
      (
        ap (λ x. x.0) started,
        (response, answered, ap (λ (u : UserRead). u.role) owner ∙ local_row.role_held),
      )
