-- ===== src/Security/Access/Lookup.antt =====
-- The user that `find_user` gives for a username.
use mathlib.Core.Path.{subst}
use day_trade_intellegence.Core.Action.{Result, err, lift, ok, ◌>>=◌}
use day_trade_intellegence.Core.Action.Triple.{
  Gives, Triple, Triple-bind, Triple-gives, Triple-lift, Triple-pure,
}
use day_trade_intellegence.Core.Errors.{class_name}
use day_trade_intellegence.Db.Models.{Stored, Tables, User}
use day_trade_intellegence.Db.Session.{IsReliable, IsTransactional, Session}
use day_trade_intellegence.Prelude.{
  Bool-cases, List, Option, String, [], ap, filter, if◌then◌else◌, inl, inr, none, refl, some,
  str_eq, sym, ◌∙◌, ◌∷◌, ◌≡◌,
}
use day_trade_intellegence.Repositories.{get_by_username, one_or_none}
use day_trade_intellegence.Security.Access.{find_user, if_active}
use day_trade_intellegence.Security.Access.Granted.{IsActiveUser}

module _ {F W : Type 0} (db : Session F W) (d : Tables F) where
  -- What `one_or_none` makes of the rows that a query finds.
  abbrev pub FoundOne : List (Stored User) → Result (Option (Stored User)) → Type 0
  FoundOne rows (ok none) = Unit
  FoundOne rows (ok (some row)) = rows ≡ row ∷ []
  FoundOne rows (err e) = class_name e ≡ "MultipleResultsFound"

  one_or_none-FoundOne : (rows : List (Stored User)) → FoundOne rows (one_or_none rows)
  unfolding one_or_none class_name
  one_or_none-FoundOne [] = tt
  one_or_none-FoundOne (row ∷ []) = refl
  one_or_none-FoundOne (row ∷ other ∷ rows) = refl

  -- What a lookup finds for a username.
  abbrev pub FoundUser : Option String → Result (Option (Stored User)) → W → Type 0
  FoundUser name (ok none) w = Unit
  FoundUser name (ok (some row)) w =
      (username : String) × (name ≡ some username) × IsActiveUser d username row
  FoundUser name (err e) w = class_name e ≡ "MultipleResultsFound"

  abbrev pub rows_of : String → List (Stored User)
  rows_of username = filter (λ r. str_eq r.columns.username username) d.users

  if_active-FoundUser :
      (username : String) (user : Option (Stored User)) (w : W)
      → FoundOne (rows_of username) (ok user)
      → FoundUser (some username) (ok (if_active user)) w
  unfolding if_active
  if_active-FoundUser username none w h = tt
  if_active-FoundUser username (some row) w h = elim (Bool-cases row.columns.is_active) [
    | inl e ↦
        subst (λ b. FoundUser (some username) (ok (if b then some row else none)) w) (sym e)
          (username, refl, record { found = h; active = e })
    | inr e ↦
        subst (λ b. FoundUser (some username) (ok (if b then some row else none)) w) (sym e) tt
  ]

  module _ (reliable : IsReliable db) (writes : IsTransactional db) where
    pub get_by_username-FoundOne :
        (username : String)
        → Triple
            (λ w. db.tables w ≡ d)
            (get_by_username db username)
            (λ r w. FoundOne (rows_of username) r × (db.tables w ≡ d))
    unfolding get_by_username
    get_by_username-FoundOne username =
        let reads : Triple (λ w. db.tables w ≡ d) db.select (Gives d (λ w. db.tables w ≡ d)) =
          record { at = λ w h. (reliable.selects w ∙ ap ok h, writes.select_reads w ∙ h) } in
        Triple-gives (λ r w. FoundOne (rows_of username) r × (db.tables w ≡ d)) d _ _ reads
          (Triple-lift _ _ λ w h. (one_or_none-FoundOne (rows_of username), h))

    pub find_user-FoundUser :
        (name : Option String) → Triple (λ w. db.tables w ≡ d) (find_user db name) (FoundUser name)
    unfolding find_user
    find_user-FoundUser none = Triple-pure (FoundUser none) none λ w h. tt
    find_user-FoundUser (some username) =
        Triple-bind (λ r w. FoundOne (rows_of username) r × (db.tables w ≡ d))
          (FoundUser (some username)) _ _ (get_by_username-FoundOne username)
          (λ user.
            Triple-pure (FoundUser (some username)) (if_active user)
              λ w h. if_active-FoundUser username user w (h.0))
          (λ e w h. h.0)

module _ {F W : Type 0} (db : Session F W) (writes : IsTransactional db)
    (reliable : IsReliable db) where
  -- The one row of a username is found.
  pub get_by_username_lem :
      (username : String) (row : Stored User) (w : W)
      → filter (λ r. str_eq r.columns.username username) (db.tables w).users ≡ row ∷ []
      → (get_by_username db username w).0 ≡ ok (some row)
  unfolding get_by_username one_or_none ◌>>=◌ lift
  get_by_username_lem username row w found = rw (reliable.selects w, found) refl
