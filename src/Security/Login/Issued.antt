-- ===== src/Security/Login/Issued.antt =====
-- A login, and the token that it gives.
use mathlib.Core.Path.{subst}
use day_trade_intellegence.Core.Action.{Result, err, gets, lift, ok, ◌>>=◌}
use day_trade_intellegence.Core.Action.Ends.{Outcome}
use day_trade_intellegence.Core.Action.Triple.{Triple, Triple-bind}
use day_trade_intellegence.Core.Errors.{Error, class_name}
use day_trade_intellegence.Core.Settings.{Settings}
use day_trade_intellegence.Db.Models.{Stored, Tables, User}
use day_trade_intellegence.Db.Session.{IsReliable, IsTransactional, Session}
use day_trade_intellegence.Domain.Auth.{TokenResponse}
use day_trade_intellegence.External.{External}
use day_trade_intellegence.Prelude.{
  Bool, Bool-cases, Option, String, [], ap, codes, eq_iff, filter, filter_holds, if◌then◌else◌, inl,
  inr, none, not, refl, some, str_eq, sym, true, ℕ, ◌*◌, ◌+◌, ◌∙◌, ◌∷◌, ◌≡◌, ◌≤◌, ◌⊎◌,
}
use day_trade_intellegence.Security.Access.{bearer_token}
use day_trade_intellegence.Security.Access.Bearer.{bearer, bearer_token-create}
use day_trade_intellegence.Security.Access.Lookup.{FoundOne, get_by_username-FoundOne, rows_of}
use day_trade_intellegence.Security.Crypto.{Crypto, IsCrypto}
use day_trade_intellegence.Security.Login.{check_user, login, token_response, user_read}
use day_trade_intellegence.Security.Passwords.{verify_password}
use day_trade_intellegence.Security.Tokens.{decode_access_token}
use day_trade_intellegence.Security.Tokens.Authenticity.{decode_access_token-create}

abbrev pub IsLoginError : Error → Type 0
IsLoginError e =
    (e ≡ Error.configuration_error "Invalid username or password.")
    ⊎ (class_name e ≡ "MultipleResultsFound")

module _ {F W : Type 0} (crypto : Crypto W) (settings : Settings F) (d : Tables F) (now : ℕ)
    (username password : String) where
  -- The user is active and has this password, and the token is accepted as theirs until it expires.
  pub record IsIssued (response : TokenResponse) : Type 0 where
    pub row : Stored User
    pub found : filter (λ r. str_eq r.columns.username username) d.users ≡ row ∷ []
    pub active : row.columns.is_active ≡ true
    pub known : verify_password crypto password (codes row.columns.password_hash) ≡ true
    pub owner : response.user ≡ user_read row
    pub accepted :
        (later : ℕ)
        → later ≤ now + settings.auth_token_exp_minutes * 60
        → decode_access_token crypto settings later response.access_token
          ≡ some (record {
            sub = some username;
            role = row.columns.role;
            exp = now + settings.auth_token_exp_minutes * 60;
          })
    -- an `Authorization` header carries the token as it is
    pub carried : bearer_token (bearer response.access_token) ≡ some response.access_token

  issued :
      IsCrypto crypto
      → (row : Stored User) → filter (λ r. str_eq r.columns.username username) d.users ≡ row ∷ []
      → row.columns.is_active ≡ true
      → verify_password crypto password (codes row.columns.password_hash) ≡ true
      → IsIssued (token_response crypto settings now row)
  unfolding token_response
  issued laws row found active known =
      let name : row.columns.username ≡ username =
        (eq_iff row.columns.username username).0
          (filter_holds (λ r. str_eq r.columns.username username) d.users row [] found) in
      record {
        row = row;
        found = found;
        active = active;
        known = known;
        owner = refl;
        accepted = λ later fresh.
            decode_access_token-create crypto settings laws now later row.columns.username
              row.columns.role fresh
            ∙ ap
                (λ s. some (record {
                  sub = some s;
                  role = row.columns.role;
                  exp = now + settings.auth_token_exp_minutes * 60;
                }))
                name;
        carried =
            bearer_token-create crypto settings laws now row.columns.username row.columns.role;
      }

  abbrev Answer : Result TokenResponse → Type 0
  Answer r = Outcome IsIssued IsLoginError r

  -- The answer for a user with these two checks.
  abbrev answer : Stored User → Bool → Bool → Result TokenResponse
  answer row active known =
      if not active
      then err (Error.configuration_error "Invalid username or password.")
      else if not known
      then err (Error.configuration_error "Invalid username or password.")
      else ok (token_response crypto settings now row)

  check_user-Answer :
      IsCrypto crypto
      → (db : Session F W) (user : Option (Stored User))
      → FoundOne db d (rows_of db d username) (ok user)
      → Answer (check_user crypto settings password now user)
  unfolding check_user
  check_user-Answer laws db none found = inl refl
  check_user-Answer laws db (some row) found =
      let right = verify_password crypto password (codes row.columns.password_hash) in
      elim (Bool-cases row.columns.is_active) [
        | inr e ↦ subst (λ b. Answer (answer row b right)) (sym e) (inl refl)
        | inl e ↦ elim (Bool-cases right) [
          | inr f ↦
              subst (λ b. Answer (answer row b right)) (sym e)
                (subst (λ b. Answer (answer row true b)) (sym f) (inl refl))
          | inl f ↦
              subst (λ b. Answer (answer row b right)) (sym e)
                (subst (λ b. Answer (answer row true b)) (sym f) (issued laws row found e f))
        ]
      ]

module _ {F W : Type 0} (crypto : Crypto W) (laws : IsCrypto crypto) (settings : Settings F)
    (ext : External F W) (writes : IsTransactional ext.db) (reliable : IsReliable ext.db) where
  login-Outcome :
      (d : Tables F) (username password : String)
      → Triple
          (λ w. ext.db.tables w ≡ d)
          (login crypto settings ext username password)
          (λ r w.
            Outcome
              (IsIssued crypto settings d (ext.python.now w) username password)
              IsLoginError
              r)
  unfolding login ◌>>=◌ gets lift
  login-Outcome d username password =
      Triple-bind (λ r w. FoundOne ext.db d (rows_of ext.db d username) r × (ext.db.tables w ≡ d))
        (λ r w.
          Outcome (IsIssued crypto settings d (ext.python.now w) username password) IsLoginError r)
        _ _ (get_by_username-FoundOne ext.db d reliable writes username)
        (λ user. record {
          at = λ w h.
              check_user-Answer crypto settings d (ext.python.now w) username password laws ext.db
                user (h.0);
        })
        (λ e w h. inr (h.0))

  -- Where the database does not fail, a login that returns is of an active user with this password, and
  -- its token is accepted as this user's until the minutes of the settings have passed since the answer.
  -- One that raises says that the username or the password is invalid, or two users have the username.
  pub login-IsIssued :
      (username password : String) (w : W)
      → Outcome
          (IsIssued crypto settings
            (ext.db.tables w)
            (ext.python.now (login crypto settings ext username password w).1)
            username
            password)
          IsLoginError
          (login crypto settings ext username password w).0
  login-IsIssued username password w = (login-Outcome (ext.db.tables w) username password).at w refl
