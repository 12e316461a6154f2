-- ===== src/Api/Check.antt =====
-- The check of a route that asks for roles, in the session of its request.
use day_trade_intellegence.Api.{Credentials}
use day_trade_intellegence.Core.Action.{Result, err, ok}
use day_trade_intellegence.Core.Action.Ends.{Outcome}
use day_trade_intellegence.Core.Errors.{Error}
use day_trade_intellegence.Db.Session.{IsReliable, IsTransactional}
use day_trade_intellegence.Dependencies.{Platform}
use day_trade_intellegence.External.{IsSeparated}
use day_trade_intellegence.Prelude.{IsAmong, List, String, ◌∙◌, ◌≡◌}
use day_trade_intellegence.Security.Access.{require_role}
use day_trade_intellegence.Security.Access.Entry.{require_role-IsGranted}
use day_trade_intellegence.Security.Access.Frames.{require_role-Keeps}
use day_trade_intellegence.Security.Access.Granted.{IsGranted, IsRefusal}

-- Opening and closing a session writes nothing, sends no order and takes no time.
pub record IsNeutral {F W : Type 0} (platform : Platform F W) : Type 0 where
  pub open_tables :
      (w : W) → platform.ext.db.tables (platform.sessions.open_session w) ≡ platform.ext.db.tables w
  pub close_tables :
      (w : W)
      → platform.ext.db.tables (platform.sessions.close_session w) ≡ platform.ext.db.tables w
  pub open_accepted :
      (w : W)
      → platform.ext.ib.accepted (platform.sessions.open_session w) ≡ platform.ext.ib.accepted w
  pub close_accepted :
      (w : W)
      → platform.ext.ib.accepted (platform.sessions.close_session w) ≡ platform.ext.ib.accepted w
  pub open_now :
      (w : W)
      → platform.ext.python.now (platform.sessions.open_session w) ≡ platform.ext.python.now w

module _ {F W : Type 0} (platform : Platform F W) where
  abbrev pub opened : W → W
  opened w = platform.sessions.open_session w

  abbrev pub check : List String → Credentials → W → Result String × W
  check roles c w =
      require_role platform.crypto platform.settings platform.ext roles c.authorization c.x_api_key
        (opened w)

module _ {F W : Type 0} (platform : Platform F W) (neutral : IsNeutral platform)
    (sep : IsSeparated platform.ext) (writes : IsTransactional platform.ext.db)
    (reliable : IsReliable platform.ext.db) (roles : List String) (c : Credentials) (w : W) where
  pub check_tables : platform.ext.db.tables (check platform roles c w).1 ≡ platform.ext.db.tables w
  check_tables =
      (require_role-Keeps platform.crypto platform.settings platform.ext
          {P = λ v. platform.ext.db.tables v ≡ platform.ext.db.tables w}
          (record { at = λ v h. writes.select_reads v ∙ h }) roles c.authorization c.x_api_key).at
        (opened platform w) (neutral.open_tables w)

  pub check_accepted :
      platform.ext.ib.accepted (check platform roles c w).1 ≡ platform.ext.ib.accepted w
  check_accepted =
      (require_role-Keeps platform.crypto platform.settings platform.ext
          {P = λ v. platform.ext.ib.accepted v ≡ platform.ext.ib.accepted w}
          (record { at = λ v h. sep.select_accepted v ∙ h }) roles c.authorization c.x_api_key).at
        (opened platform w) (neutral.open_accepted w)

  outcome :
      Outcome
        (λ role.
          IsAmong role roles
          × IsGranted platform.crypto platform.settings
              (platform.ext.db.tables (opened platform w))
              (platform.ext.python.now (opened platform w))
              c.authorization
              c.x_api_key
              role)
        IsRefusal
        (check platform roles c w).0
  outcome =
      require_role-IsGranted platform.crypto platform.settings platform.ext writes reliable roles
        c.authorization c.x_api_key (opened platform w)

  pub check-IsGranted :
      (role : String)
      → (check platform roles c w).0 ≡ ok role
      → IsAmong role roles
        × IsGranted platform.crypto platform.settings
            (platform.ext.db.tables w)
            (platform.ext.python.now w)
            c.authorization
            c.x_api_key
            role
  check-IsGranted role e =
      let (among, granted) = entered in
      (among, rw (neutral.open_tables w, neutral.open_now w) at granted)
    where
      entered :
          IsAmong role roles
          × IsGranted platform.crypto platform.settings
              (platform.ext.db.tables (opened platform w))
              (platform.ext.python.now (opened platform w))
              c.authorization
              c.x_api_key
              role
      entered = rw e at outcome

  pub check-IsRefusal : (exc : Error) → (check platform roles c w).0 ≡ err exc → IsRefusal exc
  check-IsRefusal exc e = rw e at outcome
