-- ===== src/Security/Access/Granted.antt =====
-- Whom `require_role` lets in.
use day_trade_intellegence.Core.Errors.{Error, class_name}
use day_trade_intellegence.Core.Settings.{Settings}
use day_trade_intellegence.Db.Models.{Stored, Tables, User}
use day_trade_intellegence.Prelude.{
  Bool, Bool-cases, IsAmong, List, Option, String, [], ap, eq_iff, false, filter, if◌then◌else◌,
  inl, inr, is_empty, none, refl, some, str_eq, sym, true, ℕ, ◌||◌, ◌∙◌, ◌∷◌, ◌≡◌, ◌⊎◌,
}
use day_trade_intellegence.Security.Access.{api_key_role, bearer_token, is_allowed, nonempty_text}
use day_trade_intellegence.Security.Crypto.{Claims, Crypto}
use day_trade_intellegence.Security.Tokens.Authenticity.{IsAuthentic}

pub is_allowed-IsAmong :
    (role : String) (roles : List String) → is_allowed role roles ≡ true → IsAmong role roles
unfolding is_allowed
is_allowed-IsAmong role [] h = cc
is_allowed-IsAmong role (allowed ∷ roles) h = elim (Bool-cases (str_eq role allowed)) [
  | inl e ↦ inl ((eq_iff role allowed).0 e)
  | inr e ↦ inr (is_allowed-IsAmong role roles (sym (ap (λ b. b || is_allowed role roles) e) ∙ h))
]

pub IsAmong-is_allowed :
    (role : String) (roles : List String) → IsAmong role roles → is_allowed role roles ≡ true
unfolding is_allowed
IsAmong-is_allowed role [] among = absurd among
IsAmong-is_allowed role (allowed ∷ roles) (inl e) =
    ap (λ b. b || is_allowed role roles) ((eq_iff role allowed).1 e)
IsAmong-is_allowed role (allowed ∷ roles) (inr among) =
    ap (λ b. str_eq role allowed || b) (IsAmong-is_allowed role roles among)
    ∙ or_true (str_eq role allowed)
  where
    or_true : (b : Bool) → (b || true) ≡ true
    or_true true = refl
    or_true false = refl

-- The two refusals, and the complaint of the query about a username that is stored twice.
abbrev pub IsRefusal : Error → Type 0
IsRefusal e =
    (e ≡ Error.http_exception 401 "Missing or invalid credentials.")
    ⊎ (e ≡ Error.http_exception 403 "Insufficient role for this endpoint.")
    ⊎ (class_name e ≡ "MultipleResultsFound")

-- The active user of a username.
pub record IsActiveUser {F : Type 0} (d : Tables F) (username : String) (row : Stored User)
    : Type 0 where
  pub found : filter (λ r. str_eq r.columns.username username) d.users ≡ row ∷ []
  pub active : row.columns.is_active ≡ true

module _ {F W : Type 0} (crypto : Crypto W) (settings : Settings F) where
  -- A token that is signed and not expired, for an active user with this role.
  pub record HasToken (d : Tables F) (now : ℕ) (authorization : Option (List ℕ)) (role : String)
      : Type 0 where
    pub token : List ℕ
    pub claims : Claims
    pub username : String
    pub row : Stored User
    pub header : bearer_token authorization ≡ some token
    pub authentic : IsAuthentic crypto settings now token claims
    pub subject : claims.sub ≡ some username
    pub user : IsActiveUser d username row
    pub role_held : row.columns.role ≡ role

  -- A token, or an API key of the settings for the role.
  abbrev pub IsGranted : Tables F → ℕ → Option (List ℕ) → Option String → String → Type 0
  IsGranted d now authorization x_api_key role =
      HasToken d now authorization role ⊎ (api_key_role settings x_api_key ≡ some role)

pub nonempty_text_lem :
    (o : Option String) (text : String) → nonempty_text o ≡ some text → o ≡ some text
unfolding nonempty_text
nonempty_text_lem none text h = cc
nonempty_text_lem (some s) text h = elim (Bool-cases (is_empty s)) [
  | inl e ↦ absurd (empty_text (sym (ap (λ b. if b then none else some s) e) ∙ h))
  | inr e ↦ sym (ap (λ b. if b then none else some s) e) ∙ h
]
  where
    empty_text : Path (Option String) none (some text) → ⊥
    empty_text e = cc
