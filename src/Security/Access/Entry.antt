-- ===== src/Security/Access/Entry.antt =====
-- The callers that `require_role` lets in.
use day_trade_intellegence.Core.Action.{Result, gets, lift, ok}
use day_trade_intellegence.Core.Action.Ends.{Outcome}
use day_trade_intellegence.Core.Action.Triple.{
  Gives, Triple, Triple-bind, Triple-gives, Triple-lift,
}
use day_trade_intellegence.Core.Settings.{Settings}
use day_trade_intellegence.Db.Models.{Stored, Tables, User}
use day_trade_intellegence.Db.Session.{IsReliable, IsTransactional}
use day_trade_intellegence.External.{External}
use day_trade_intellegence.Prelude.{
  Bool-cases, IsAmong, List, Option, String, ap, inl, inr, none, refl, some, ℕ, ◌≡◌,
}
use day_trade_intellegence.Security.Access.{
  bearer_token, bearer_username, check_role, claims_username, is_allowed, require_role,
  resolve_user_from_bearer_token, role_of, subject_of, token_username,
}
use day_trade_intellegence.Security.Access.Granted.{
  IsGranted, IsRefusal, is_allowed-IsAmong, nonempty_text_lem,
}
use day_trade_intellegence.Security.Access.Lookup.{FoundUser, find_user-FoundUser}
use day_trade_intellegence.Security.Crypto.{Claims, Crypto}
use day_trade_intellegence.Security.Tokens.{decode_access_token}
use day_trade_intellegence.Security.Tokens.Authenticity.{
  IsAuthentic, decode_access_token-IsAuthentic,
}

module _ {F W : Type 0} (crypto : Crypto W) (settings : Settings F) where
  -- The claims of a token behind a username.
  abbrev Claimed : ℕ → List ℕ → String → Type 0
  Claimed now token username =
      (claims : Claims) × IsAuthentic crypto settings now token claims
      × (claims.sub ≡ some username)

  claims_username-Claimed :
      (now : ℕ) (token : List ℕ) (username : String) (o : Option Claims)
      → decode_access_token crypto settings now token ≡ o
      → claims_username o ≡ some username
      → Claimed now token username
  unfolding claims_username subject_of
  claims_username-Claimed now token username none e h = cc
  claims_username-Claimed now token username (some claims) e h = (
    claims,
    decode_access_token-IsAuthentic crypto settings now token claims e,
    nonempty_text_lem claims.sub username h,
  )

  token_username-Claimed :
      (now : ℕ) (username : String) (o : Option (List ℕ))
      → token_username crypto settings now o ≡ some username
      → (token : List ℕ) × (o ≡ some token) × Claimed now token username
  unfolding token_username
  token_username-Claimed now username none h = cc
  token_username-Claimed now username (some token) h =
      (token, refl, claims_username-Claimed now token username _ refl h)

module _ {F W : Type 0} (crypto : Crypto W) (settings : Settings F) (ext : External F W)
    (d : Tables F) (now : ℕ) (allowed_roles : List String) (authorization : Option (List ℕ))
    (x_api_key : Option String) where
  -- The role is allowed, and was granted.
  abbrev Entered : String → Type 0
  Entered role =
      IsAmong role allowed_roles × IsGranted crypto settings d now authorization x_api_key role

  check_role-Outcome :
      (role : Option String)
      → ((r : String) → role ≡ some r → IsGranted crypto settings d now authorization x_api_key r)
      → Outcome Entered IsRefusal (check_role allowed_roles role)
  unfolding check_role
  check_role-Outcome none granted = inl refl
  check_role-Outcome (some role) granted = elim (Bool-cases (is_allowed role allowed_roles)) [
    | inl e ↦ rw e (is_allowed-IsAmong role allowed_roles e, granted role refl)
    | inr e ↦ rw e (inr (inl refl))
  ]

  role_of-IsGranted :
      (user : Option (Stored User)) (w : W)
      → FoundUser ext.db d (bearer_username crypto settings now authorization) (ok user) w
      → (r : String) → role_of settings user x_api_key ≡ some r
      → IsGranted crypto settings d now authorization x_api_key r
  unfolding role_of bearer_username
  role_of-IsGranted none w found r h = inr h
  role_of-IsGranted (some row) w (username, named, user) r h =
      let (token, header, (claims, authentic, subject)) =
        token_username-Claimed crypto settings now username (bearer_token authorization) named in
      inl (record {
        token = token;
        claims = claims;
        username = username;
        row = row;
        header = header;
        authentic = authentic;
        subject = subject;
        user = user;
        role_held = cc (h);
      })

  abbrev Before : W → Type 0
  Before w = (ext.db.tables w ≡ d) × (ext.python.now w ≡ now)

  abbrev EnteredPost : Result String → W → Type 0
  EnteredPost r w = Outcome Entered IsRefusal r

  -- What the user that was found allows.
  checked :
      (user : Option (Stored User))
      → Triple
          (FoundUser ext.db d (bearer_username crypto settings now authorization) (ok user))
          (lift (check_role allowed_roles (role_of settings user x_api_key)))
          EnteredPost
  checked user = Triple-lift _ EnteredPost λ w found.
      check_role-Outcome (role_of settings user x_api_key) (role_of-IsGranted user w found)

  require_role-Entered :
      IsReliable ext.db
      → IsTransactional ext.db
      → Triple Before
          (require_role crypto settings ext allowed_roles authorization x_api_key)
          EnteredPost
  unfolding require_role resolve_user_from_bearer_token gets
  require_role-Entered reliable writes =
      let name = bearer_username crypto settings now authorization in
      let clock : Triple Before (gets ext.python.now) (Gives now (λ w. ext.db.tables w ≡ d)) =
        record { at = λ w h. (ap ok (h.1), h.0) } in
      Triple-bind (FoundUser ext.db d name) EnteredPost _ _
        (Triple-gives (FoundUser ext.db d name) now _ _ clock
          (find_user-FoundUser ext.db d reliable writes name))
        checked (λ e w h. inr (inr h))

module _ {F W : Type 0} (crypto : Crypto W) (settings : Settings F) (ext : External F W)
    (writes : IsTransactional ext.db) (reliable : IsReliable ext.db) where
  -- Where the database does not fail, an endpoint lets a caller in only with an allowed role, which
  -- either an active user has whose token is signed with the secret key and has not expired, or an API
  -- key of the settings gives. Otherwise it answers 401 or 403, or two users have the same username.
  pub require_role-IsGranted :
      (allowed_roles : List String) (authorization : Option (List ℕ)) (x_api_key : Option String)
      (w : W)
      → Outcome
          (λ role.
            IsAmong role allowed_roles
            × IsGranted crypto settings
                (ext.db.tables w)
                (ext.python.now w)
                authorization
                x_api_key
                role)
          IsRefusal
          (require_role crypto settings ext allowed_roles authorization x_api_key w).0
  require_role-IsGranted allowed_roles authorization x_api_key w =
      (require_role-Entered crypto settings ext (ext.db.tables w) (ext.python.now w) allowed_roles
          authorization x_api_key reliable writes).at
        w (refl, refl)
