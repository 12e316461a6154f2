-- ===== src/Security/Access/Frames.antt =====
-- What the check of a caller leaves alone: all that a query leaves alone.
use day_trade_intellegence.Core.Action.Triple.{
  Keeps, Keeps-bind, Keeps-gets, Keeps-lift, Keeps-pure,
}
use day_trade_intellegence.Core.Settings.{Settings}
use day_trade_intellegence.Db.Session.{Session}
use day_trade_intellegence.External.{External}
use day_trade_intellegence.Prelude.{List, Option, String, none, some, ℕ}
use day_trade_intellegence.Repositories.{get_by_username}
use day_trade_intellegence.Security.Access.{find_user, require_role, resolve_user_from_bearer_token}
use day_trade_intellegence.Security.Crypto.{Crypto}

module _ {F W : Type 0} (db : Session F W) {P : W → Type 0} (selected : Keeps P db.select) where
  pub get_by_username-Keeps : (username : String) → Keeps P (get_by_username db username)
  unfolding get_by_username
  get_by_username-Keeps username = Keeps-bind _ _ selected λ tables. Keeps-lift _

  find_user-Keeps : (name : Option String) → Keeps P (find_user db name)
  unfolding find_user
  find_user-Keeps none = Keeps-pure _
  find_user-Keeps (some username) =
      Keeps-bind _ _ (get_by_username-Keeps username) λ user. Keeps-pure _

module _ {F W : Type 0} (crypto : Crypto W) (settings : Settings F) (ext : External F W)
    {P : W → Type 0} (selected : Keeps P ext.db.select) where
  pub require_role-Keeps :
      (roles : List String) (authorization : Option (List ℕ)) (x_api_key : Option String)
      → Keeps P (require_role crypto settings ext roles authorization x_api_key)
  unfolding require_role resolve_user_from_bearer_token
  require_role-Keeps roles authorization x_api_key =
      Keeps-bind _ _ (Keeps-bind _ _ (Keeps-gets _) λ now. find_user-Keeps ext.db selected _)
        λ user. Keeps-lift _
