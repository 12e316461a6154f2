-- ===== src/Security/Access.antt =====
-- app/security/auth.py: who may call an endpoint.
pub mod Granted
pub mod Lookup
pub mod Entry
pub mod Frames
pub mod Bearer
use day_trade_intellegence.Core.Action.{Action, Result, err, gets, lift, ok, pure, ◌>>=◌, ◌>>◌}
use day_trade_intellegence.Core.Errors.{Error}
use day_trade_intellegence.Core.Settings.{Settings}
use day_trade_intellegence.Db.Models.{Stored, User}
use day_trade_intellegence.Db.Session.{Session}
use day_trade_intellegence.External.{External}
use day_trade_intellegence.Prelude.{
  Bool, List, Option, String, [], codes, false, if◌then◌else◌, is_empty, leb, none, not, some,
  str_eq, true, ℕ, ◌&&◌, ◌==◌, ◌||◌, ◌∷◌,
}
use day_trade_intellegence.Repositories.{get_by_username}
use day_trade_intellegence.Security.Crypto.{Claims, Crypto}
use day_trade_intellegence.Security.Tokens.{decode_access_token}

module _ {F : Type 0} (settings : Settings F) where
  -- `_resolve_role_from_api_key`, with the roles of `UserRole`
  unfoldable pub resolve_role_from_api_key : String → Option String
  resolve_role_from_api_key api_key =
      if str_eq api_key settings.admin_api_key
      then some "ADMIN"
      else if str_eq api_key settings.operator_api_key
      then some "OPERATOR"
      else if str_eq api_key settings.trader_api_key
      then some "TRADER"
      else none

  -- `if x_api_key: …`
  unfoldable pub api_key_role : Option String → Option String
  unfolding resolve_role_from_api_key
  api_key_role none = none
  api_key_role (some api_key) = if is_empty api_key then none else resolve_role_from_api_key api_key

-- `removeprefix`, where `none` is a text without the prefix.
unfoldable pub remove_prefix : List ℕ → List ℕ → Option (List ℕ)
remove_prefix [] s = some s
remove_prefix (c ∷ p) [] = none
remove_prefix (c ∷ p) (d ∷ s) = elim (c == d) [ true ↦ remove_prefix p s | false ↦ none ]

-- `str.isspace` of one code point
unfoldable pub is_space : ℕ → Bool
is_space c =
    (leb 9 c && leb c 13)
    || (leb 28 c && leb c 32)
    || c == 133
    || c == 160
    || c == 5760
    || (leb 8192 c && leb c 8202)
    || c == 8232
    || c == 8233
    || c == 8239
    || c == 8287
    || c == 12288

unfoldable pub strip_left : List ℕ → List ℕ
unfolding is_space
strip_left [] = []
strip_left (c ∷ s) = elim (is_space c) [ true ↦ strip_left s | false ↦ c ∷ s ]

-- A code point before a text whose trailing white space is gone.
abbrev before_stripped : ℕ → List ℕ → List ℕ
before_stripped c [] = elim (is_space c) [ true ↦ [] | false ↦ c ∷ [] ]
before_stripped c (d ∷ s) = c ∷ d ∷ s

unfoldable pub strip_right : List ℕ → List ℕ
unfolding is_space
strip_right [] = []
strip_right (c ∷ s) = before_stripped c (strip_right s)

-- The token of an `Authorization` header. `None` and the empty text are no `Bearer` header.
unfoldable pub bearer_token : Option (List ℕ) → Option (List ℕ)
unfolding remove_prefix strip_left strip_right
bearer_token none = none
bearer_token (some authorization) = elim (remove_prefix (codes "Bearer ") authorization) [
  | none ↦ none
  | some rest ↦ some (strip_right (strip_left rest))
]

-- `None` for a missing or an empty text
unfoldable pub nonempty_text : Option String → Option String
nonempty_text none = none
nonempty_text (some text) = if is_empty text then none else some text

-- `payload.get("sub")`, where the empty text is no username
unfoldable pub subject_of : Claims → Option String
unfolding nonempty_text
subject_of claims = nonempty_text claims.sub

-- `user is None or not user.is_active`
unfoldable pub if_active : Option (Stored User) → Option (Stored User)
if_active none = none
if_active (some row) = if row.columns.is_active then some row else none

-- `role not in allowed_roles`
unfoldable pub is_allowed : String → List String → Bool
is_allowed role [] = false
is_allowed role (allowed ∷ roles) = str_eq role allowed || is_allowed role roles

unfoldable pub claims_username : Option Claims → Option String
unfolding subject_of
claims_username none = none
claims_username (some claims) = subject_of claims

module _ {F W : Type 0} (crypto : Crypto W) (settings : Settings F) where
  unfoldable pub token_username : ℕ → Option (List ℕ) → Option String
  unfolding decode_access_token claims_username
  token_username now none = none
  token_username now (some token) = claims_username (decode_access_token crypto settings now token)

  -- The username of a valid token.
  unfoldable pub bearer_username : ℕ → Option (List ℕ) → Option String
  unfolding bearer_token token_username
  bearer_username now authorization = token_username now (bearer_token authorization)

unfoldable pub check_role : List String → Option String → Result String
unfolding is_allowed
check_role allowed_roles none = err (Error.http_exception 401 "Missing or invalid credentials.")
check_role allowed_roles (some role) =
    if not (is_allowed role allowed_roles)
    then err (Error.http_exception 403 "Insufficient role for this endpoint.")
    else ok role

module _ {F : Type 0} (settings : Settings F) where
  -- `user.role if user else None`, then the key
  unfoldable pub role_of : Option (Stored User) → Option String → Option String
  unfolding api_key_role
  role_of none x_api_key = api_key_role settings x_api_key
  role_of (some user) x_api_key = some user.columns.role

module _ {F W : Type 0} (db : Session F W) where
  unfoldable pub find_user : Option String → Action W (Option (Stored User))
  unfolding get_by_username if_active
  find_user none = pure none
  find_user (some username) = do user ← get_by_username db username; pure (if_active user)

module _ {F W : Type 0} (crypto : Crypto W) (settings : Settings F) (ext : External F W) where
  unfoldable pub resolve_user_from_bearer_token : Option (List ℕ) → Action W (Option (Stored User))
  unfolding bearer_username find_user
  resolve_user_from_bearer_token authorization = do
    now ← gets ext.python.now
    find_user ext.db (bearer_username crypto settings now authorization)

  -- the `dependency` that `require_role(allowed_roles)` gives
  unfoldable pub require_role : List String → Option (List ℕ) → Option String → Action W String
  unfolding resolve_user_from_bearer_token role_of check_role
  require_role allowed_roles authorization x_api_key = do
    user ← resolve_user_from_bearer_token authorization
    lift (check_role allowed_roles (role_of settings user x_api_key))
