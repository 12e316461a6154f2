-- ===== src/Security/Login.antt =====
-- app/services/auth_service.py: `login` and `get_user`.
pub mod Issued
use day_trade_intellegence.Core.Action.{Action, Result, err, gets, lift, ok, pure, ◌>>=◌, ◌>>◌}
use day_trade_intellegence.Core.Errors.{Error}
use day_trade_intellegence.Core.Settings.{Settings}
use day_trade_intellegence.Db.Models.{Stored, User}
use day_trade_intellegence.Domain.Auth.{TokenResponse, UserRead}
use day_trade_intellegence.External.{External}
use day_trade_intellegence.Prelude.{Option, String, codes, if◌then◌else◌, none, not, some, ℕ}
use day_trade_intellegence.Repositories.{get_by_username}
use day_trade_intellegence.Security.Crypto.{Crypto}
use day_trade_intellegence.Security.Passwords.{verify_password}
use day_trade_intellegence.Security.Tokens.{create_access_token}

unfoldable pub user_read : Stored User → UserRead
user_read user = record {
  id = user.id;
  username = user.columns.username;
  role = user.columns.role;
  is_active = user.columns.is_active;
  created_at = user.stamp;
}

unfoldable pub user_or_none : Option (Stored User) → Option UserRead
unfolding user_read
user_or_none none = none
user_or_none (some user) = some (user_read user)

module _ {F W : Type 0} (crypto : Crypto W) (settings : Settings F) where
  -- the answer to the right password at time `now`
  unfoldable pub token_response : ℕ → Stored User → TokenResponse
  unfolding create_access_token user_read
  token_response now user =
      let (token, expires_in) =
        create_access_token crypto settings now user.columns.username user.columns.role in
      record {
        access_token = token;
        token_type = "bearer";
        expires_in = expires_in;
        user = user_read user;
      }

  -- the checks of the user that was found, and the answer
  unfoldable pub check_user : String → ℕ → Option (Stored User) → Result TokenResponse
  unfolding verify_password token_response
  check_user password now none = err (Error.configuration_error "Invalid username or password.")
  check_user password now (some user) =
      if not user.columns.is_active
      then err (Error.configuration_error "Invalid username or password.")
      else if not (verify_password crypto password (codes user.columns.password_hash))
      then err (Error.configuration_error "Invalid username or password.")
      else ok (token_response now user)

module _ {F W : Type 0} (crypto : Crypto W) (settings : Settings F) (ext : External F W) where
  -- The clock is read after the password was checked, and nothing happens in between.
  unfoldable pub login : String → String → Action W TokenResponse
  unfolding get_by_username check_user
  login username password = do
    user ← get_by_username ext.db username
    now ← gets ext.python.now
    lift (check_user crypto settings password now user)

  unfoldable pub get_user : String → Action W (Option UserRead)
  unfolding get_by_username user_or_none
  get_user username = do user ← get_by_username ext.db username; pure (user_or_none user)
