-- ===== src/Api/Routes/Current.antt =====
-- app/api/routes/auth.py: `get_current_user`.
use day_trade_intellegence.Api.{value_or}
use day_trade_intellegence.Core.Action.{Action, gets, pure, raise, ◌>>=◌}
use day_trade_intellegence.Core.Errors.{Error}
use day_trade_intellegence.Db.Factory.{with_session}
use day_trade_intellegence.Db.Models.{Stored, User}
use day_trade_intellegence.Dependencies.{Platform}
use day_trade_intellegence.Domain.Auth.{UserRead}
use day_trade_intellegence.Prelude.{List, Option, String, none, some, ℕ}
use day_trade_intellegence.Repositories.{get_by_username}
use day_trade_intellegence.Security.Access.{bearer_token, if_active}
use day_trade_intellegence.Security.Crypto.{Claims}
use day_trade_intellegence.Security.Login.{user_read}
use day_trade_intellegence.Security.Tokens.{decode_access_token}

module _ {F W : Type 0} (platform : Platform F W) where
  abbrev unauthorized : {A : Type 0} → String → Action W A
  unauthorized detail = raise (Error.http_exception 401 detail)

  -- `str(payload.get("sub", ""))`
  unfoldable pub subject_or_empty : Claims → String
  subject_or_empty claims = value_or "" claims.sub

  -- the user that was found, or the refusal
  unfoldable pub answer_user : Option (Stored User) → Action W UserRead
  unfolding raise pure user_read
  answer_user none = unauthorized "Authenticated user not found."
  answer_user (some user) = pure (user_read user)

  -- `if not payload: …`; a payload has entries
  unfoldable pub answer_claims : Option Claims → Action W UserRead
  unfolding raise subject_or_empty get_by_username if_active answer_user
  answer_claims none = unauthorized "Invalid bearer token."
  answer_claims (some claims) = do
    user ← get_by_username platform.ext.db (subject_or_empty claims)
    answer_user (if_active user)

  unfoldable pub answer_token : Option (List ℕ) → Action W UserRead
  unfolding raise decode_access_token answer_claims
  answer_token none = unauthorized "Missing bearer token."
  answer_token (some token) = do
    now ← gets platform.ext.python.now
    answer_claims (decode_access_token platform.crypto platform.settings now token)

  unfoldable pub get_current_user : Option (List ℕ) → Action W UserRead
  unfolding bearer_token answer_token
  get_current_user authorization =
      with_session platform.sessions (answer_token (bearer_token authorization))
