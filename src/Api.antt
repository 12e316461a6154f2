-- ===== src/Api.antt =====
-- app/api: what all routes share. The parameters of a route are checked by FastAPI after its
-- dependencies have run, so that a refused caller is answered 401 or 403 also for a bad parameter.
pub mod Routes
pub mod Serve
pub mod Application
pub mod Stable
pub mod Keeps
pub mod Required
pub mod Check
pub mod Refused
pub mod Answers
pub mod Orders
pub mod SignedIn
pub mod Pages
pub mod Lists
use day_trade_intellegence.Core.Action.{Action, Result, err, ok, ◌>>◌}
use day_trade_intellegence.Core.Errors.{Error}
use day_trade_intellegence.Db.Factory.{with_session}
use day_trade_intellegence.Dependencies.{Platform}
use day_trade_intellegence.Domain.Trading.{TradeSignalRequest, meets_constraints}
use day_trade_intellegence.Prelude.{
  List, Option, String, [], if◌then◌else◌, leb, none, some, ℕ, ◌&&◌, ◌∷◌,
}
use day_trade_intellegence.Security.Access.{require_role}

-- The headers `Authorization`, as code points, and `X-API-Key`.
pub record Credentials : Type 0 where
  pub authorization : Option (List ℕ)
  pub x_api_key : Option String

-- The query parameters of a list, as they were sent. One that is no natural number, which FastAPI
-- refuses like a limit out of its bounds, is left out.
pub record Listing : Type 0 where
  pub symbol : Option String
  pub limit : Option ℕ
  pub offset : Option ℕ

-- FastAPI's answer to a parameter that its declaration refuses; the detail lists the parameters.
abbrev pub unprocessable : Error
unprocessable = Error.http_exception 422 "Unprocessable Entity"

abbrev pub value_or : {A : Type 0} → A → Option A → A
value_or a none = a
value_or a (some b) = b

-- `limit: int = Query(default=50, ge=1, le=500)`
unfoldable pub checked_limit : Option ℕ → Result ℕ
checked_limit limit =
    let n = value_or 50 limit in if leb 1 n && leb n 500 then ok n else err unprocessable

-- `offset: int = Query(default=0, ge=0)`
unfoldable pub checked_offset : Option ℕ → ℕ
checked_offset offset = value_or 0 offset

-- the body of a request for a signal
unfoldable pub checked_signal : TradeSignalRequest → Result TradeSignalRequest
unfolding meets_constraints
checked_signal request = if meets_constraints request then ok request else err unprocessable

abbrev pub all_roles : List String
all_roles = "TRADER" ∷ "OPERATOR" ∷ "ADMIN" ∷ []

abbrev pub operator_roles : List String
operator_roles = "OPERATOR" ∷ "ADMIN" ∷ []

abbrev pub admin_roles : List String
admin_roles = "ADMIN" ∷ []

module _ {F W A : Type 0} (platform : Platform F W) where
  -- A route that depends on `require_role(allowed_roles)`, and so on `get_db_session`: one session
  -- for the request, closed after it.
  unfoldable pub protected : List String → Credentials → Action W A → Action W A
  unfolding with_session require_role
  protected allowed_roles credentials body = with_session platform.sessions (
      require_role platform.crypto platform.settings platform.ext allowed_roles
        credentials.authorization credentials.x_api_key
      >> body)
