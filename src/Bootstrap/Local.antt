-- ===== src/Bootstrap/Local.antt =====
-- The local users that a start makes in a database without users.
use mathlib.Core.Path.{subst}
use day_trade_intellegence.Db.Models.{Stored, User}
use day_trade_intellegence.Prelude.{
  All, Bool-cases, IsAmong, List, String, [], ap, codes, eq_iff, false, filter, filter_no,
  filter_yes, inl, inr, refl, str_eq, sym, true, ◌++◌, ◌∙◌, ◌∷◌, ◌≡◌, ◌≢◌,
}
use day_trade_intellegence.Security.Crypto.{Crypto}
use day_trade_intellegence.Security.Passwords.{verify_password}
use day_trade_intellegence.Security.Split.{differs}

pub record LocalUser : Type 0 where
  pub username : String
  pub password : String
  pub role : String

abbrev pub local : String → String → String → LocalUser
local username password role = record { username = username; password = password; role = role }

-- The users, with the passwords that the code has for them.
abbrev pub local_users : List LocalUser
local_users =
    local "trader" "trader123" "TRADER"
    ∷ local "operator" "operator123" "OPERATOR"
    ∷ local "admin" "admin123" "ADMIN"
    ∷ []

-- No two users have the same name.
abbrev pub Apart : List LocalUser → Type 0
Apart [] = Unit
Apart (s ∷ ss) = All (λ t. t.username ≢ s.username) ss × Apart ss

at_among :
    (P : LocalUser → Type 0) (ss : List LocalUser) (s : LocalUser) → All P ss → IsAmong s ss → P s
at_among P [] s all among = absurd among
at_among P (t ∷ ss) s (here, all) (inl same) = subst P (sym same) here
at_among P (t ∷ ss) s (here, all) (inr among) = at_among P ss s all among

-- The rows of a username.
abbrev pub named : String → List (Stored User) → List (Stored User)
named username rows = filter (λ (r : Stored User). str_eq r.columns.username username) rows

module _ {W : Type 0} (crypto : Crypto W) where
  -- A row is of an active user with this name, this role and this password.
  pub record IsLocal (s : LocalUser) (row : Stored User) : Type 0 where
    pub name : row.columns.username ≡ s.username
    pub role_held : row.columns.role ≡ s.role
    pub active : row.columns.is_active ≡ true
    pub known : verify_password crypto s.password (codes row.columns.password_hash) ≡ true

  -- The rows are of these users, in this order.
  abbrev pub MadeOf : List LocalUser → List (Stored User) → Type 0
  MadeOf [] [] = Unit
  MadeOf [] (row ∷ rows) = ⊥
  MadeOf (s ∷ ss) [] = ⊥
  MadeOf (s ∷ ss) (row ∷ rows) = IsLocal s row × MadeOf ss rows

  pub append-MadeOf :
      (ss : List LocalUser) (rows : List (Stored User)) (s : LocalUser) (row : Stored User)
      → MadeOf ss rows
      → IsLocal s row
      → MadeOf (ss ++ s ∷ []) (rows ++ row ∷ [])
  append-MadeOf [] [] s row made new = (new, tt)
  append-MadeOf [] (r ∷ rows) s row made new = absurd made
  append-MadeOf (t ∷ ss) [] s row made new = absurd made
  append-MadeOf (t ∷ ss) (r ∷ rows) s row (old, made) new =
      (old, append-MadeOf ss rows s row made new)

  other_name :
      (s : LocalUser) (row : Stored User) (username : String)
      → IsLocal s row
      → s.username ≢ username
      → str_eq row.columns.username username ≡ false
  other_name s row username local_row apart =
      elim (Bool-cases (str_eq row.columns.username username)) [
        | inl same ↦
            absurd (apart (sym local_row.name ∙ (eq_iff row.columns.username username).0 same))
        | inr other ↦ other
      ]

  pub made_none :
      (ss : List LocalUser) (rows : List (Stored User)) (username : String)
      → MadeOf ss rows
      → All (λ s. s.username ≢ username) ss
      → named username rows ≡ []
  made_none [] [] username made apart = refl
  made_none [] (r ∷ rows) username made apart = absurd made
  made_none (s ∷ ss) [] username made apart = absurd made
  made_none (s ∷ ss) (r ∷ rows) username (here, made) (differs, apart) =
      filter_no _ r rows (other_name s r username here differs)
      ∙ made_none ss rows username made apart

  pub made_found :
      (ss : List LocalUser) (rows : List (Stored User)) (s : LocalUser)
      → MadeOf ss rows
      → Apart ss
      → IsAmong s ss
      → (row : Stored User) × (named s.username rows ≡ row ∷ []) × IsLocal s row
  made_found [] rows s made apart among = absurd among
  made_found (t ∷ ss) [] s made apart among = absurd made
  made_found (t ∷ ss) (r ∷ rows) s (here, made) (differs, apart) (inl same) =
      let mine : IsLocal s r = subst (λ u. IsLocal u r) (sym same) here in
      let others : All (λ u. u.username ≢ s.username) ss =
        subst (λ x. All (λ u. u.username ≢ x.username) ss) (sym same) differs in
      (
        r,
        filter_yes _ r rows ((eq_iff r.columns.username s.username).1 mine.name)
            ∙ ap (◌∷◌ r) (made_none ss rows s.username made others),
        mine,
      )
  made_found (t ∷ ss) (r ∷ rows) s (here, made) (differs, apart) (inr among) =
      let (row, found, mine) = made_found ss rows s made apart among in
      let distinct : t.username ≢ s.username =
        λ e. at_among (λ u. u.username ≢ t.username) ss s differs among (sym e) in
      (row, filter_no _ r rows (other_name t r s.username here distinct) ∙ found, mine)

pub local_users-Apart : Apart local_users
local_users-Apart = (((λ e. cc e), ((λ e. cc e), tt)), (((λ e. cc e), tt), (tt, tt)))
