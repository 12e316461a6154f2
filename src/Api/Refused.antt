-- ===== src/Api/Refused.antt =====
-- Callers without a role that the endpoint asks for.
use day_trade_intellegence.Api.Routes
use day_trade_intellegence.Api.{Credentials, protected}
use day_trade_intellegence.Api.Check.{
  IsNeutral, check, check_accepted, check-IsGranted, check-IsRefusal, check_tables, opened,
}
use day_trade_intellegence.Api.Required.{Guard, required}
use day_trade_intellegence.Api.Serve.{Request, serve}
use day_trade_intellegence.Core.Action.{Action, Result-cases, err, try_finally, ◌>>=◌}
use day_trade_intellegence.Core.Action.Recover.{bind_err}
use day_trade_intellegence.Core.Errors.{Error}
use day_trade_intellegence.Core.Float.{Float}
use day_trade_intellegence.Db.Factory.{with_session}
use day_trade_intellegence.Db.Session.{IsReliable, IsTransactional}
use day_trade_intellegence.Dependencies.{Platform}
use day_trade_intellegence.External.{IsSeparated}
use day_trade_intellegence.Prelude.{
  IsAmong, List, Option, String, ap, inl, inr, none, some, ◌∙◌, ◌≡◌,
}
use day_trade_intellegence.Security.Access.Granted.{IsGranted, IsRefusal}

module _ {F W : Type 0} ⦃fl : Float F⦄ (platform : Platform F W) (neutral : IsNeutral platform)
    (sep : IsSeparated platform.ext) (writes : IsTransactional platform.ext.db)
    (reliable : IsReliable platform.ext.db) where
  -- The endpoint asks for roles, and the caller has none of them.
  abbrev pub Denied : Option Guard → W → Type 0
  Denied none w = ⊥
  Denied (some guard) w =
      (role : String)
      → IsAmong role guard.roles
      → ¬ IsGranted platform.crypto platform.settings (platform.ext.db.tables w)
          (platform.ext.python.now w) guard.credentials.authorization guard.credentials.x_api_key
          role

  -- A call answers with a refusal, and has written nothing and sent no order.
  pub record IsRefused {A : Type 0} (m : Action W A) (w : W) : Type 0 where
    pub refusal : Error
    pub raised : (m w).0 ≡ err refusal
    pub allowed : IsRefusal refusal
    pub unwritten : platform.ext.db.tables (m w).1 ≡ platform.ext.db.tables w
    pub unsent : platform.ext.ib.accepted (m w).1 ≡ platform.ext.ib.accepted w

  Denied-check :
      (roles : List String) (c : Credentials) (w : W)
      → Denied (some (record { roles = roles; credentials = c })) w
      → (e : Error) × ((check platform roles c w).0 ≡ err e) × IsRefusal e
  Denied-check roles c w denied = elim (Result-cases (check platform roles c w).0) [
    | inl (role, e) ↦
        let (among, granted) =
          check-IsGranted platform neutral sep writes reliable roles c w role e in
        absurd (denied role among granted)
    | inr (exc, e) ↦ (exc, e, check-IsRefusal platform neutral sep writes reliable roles c w exc e)
  ]

  protected-IsRefused :
      {A : Type 0} (roles : List String) (c : Credentials) (body : Action W A) (w : W)
      → Denied (some (record { roles = roles; credentials = c })) w
      → IsRefused (protected platform roles c body) w
  unfolding protected with_session try_finally
  protected-IsRefused roles c body w denied =
      let (e, refused, refusal) = Denied-check roles c w denied in
      let stopped = bind_err _ (λ role. body) (opened platform w) e refused in
      let kept = ap (λ x. x.1) stopped in
      record {
        refusal = e;
        raised = ap (λ x. x.0) stopped;
        allowed = refusal;
        unwritten =
            neutral.close_tables _
            ∙ ap platform.ext.db.tables kept
            ∙ check_tables platform neutral sep writes reliable roles c w;
        unsent =
            neutral.close_accepted _
            ∙ ap platform.ext.ib.accepted kept
            ∙ check_accepted platform neutral sep writes reliable roles c w;
      }

  bind-IsRefused :
      {A B : Type 0} (m : Action W A) (f : A → Action W B) (w : W)
      → IsRefused m w
      → IsRefused (m >>= f) w
  bind-IsRefused m f w refused_m =
      let stopped = bind_err m f w refused_m.refusal refused_m.raised in
      let kept = ap (λ x. x.1) stopped in
      record {
        refusal = refused_m.refusal;
        raised = ap (λ x. x.0) stopped;
        allowed = refused_m.allowed;
        unwritten = ap platform.ext.db.tables kept ∙ refused_m.unwritten;
        unsent = ap platform.ext.ib.accepted kept ∙ refused_m.unsent;
      }

  -- Where the database does not fail, an endpoint that is called by someone who holds none of the roles
  -- that it asks for, by a token or an API key, answers 401 or 403, or a username is stored twice; and
  -- nothing was written and no order sent, whatever the request was.
  pub serve-IsRefused :
      (request : Request) (w : W)
      → Denied (required request) w
      → IsRefused (serve platform request) w
  unfolding serve Routes.generate_and_execute_signal Routes.list_trade_orders Routes.list_positions
      Routes.list_strategy_runs Routes.list_audit_logs Routes.get_portfolio_summary
      Routes.run_reconciliation Routes.enqueue_reconciliation Routes.list_reconciliation_runs
      Routes.admin_system_status
  serve-IsRefused Request.root w denied = absurd denied
  serve-IsRefused Request.health w denied = absurd denied
  serve-IsRefused Request.readiness w denied = absurd denied
  serve-IsRefused (Request.login_user username password) w denied = absurd denied
  serve-IsRefused (Request.current_user authorization) w denied = absurd denied
  serve-IsRefused (Request.signal c request) w denied =
      bind-IsRefused _ _ w (protected-IsRefused _ c _ w denied)
  serve-IsRefused (Request.trade_orders c listing) w denied =
      bind-IsRefused _ _ w (protected-IsRefused _ c _ w denied)
  serve-IsRefused (Request.positions_of c listing) w denied =
      bind-IsRefused _ _ w (protected-IsRefused _ c _ w denied)
  serve-IsRefused (Request.strategy_runs_of c listing) w denied =
      bind-IsRefused _ _ w (protected-IsRefused _ c _ w denied)
  serve-IsRefused (Request.audit_logs c listing) w denied =
      bind-IsRefused _ _ w (protected-IsRefused _ c _ w denied)
  serve-IsRefused (Request.portfolio_summary c live) w denied =
      bind-IsRefused _ _ w (protected-IsRefused _ c _ w denied)
  serve-IsRefused (Request.reconcile_book c live) w denied =
      bind-IsRefused _ _ w (protected-IsRefused _ c _ w denied)
  serve-IsRefused (Request.enqueue c live) w denied =
      bind-IsRefused _ _ w (protected-IsRefused _ c _ w denied)
  serve-IsRefused (Request.reconciliation_runs_of c listing) w denied =
      bind-IsRefused _ _ w (protected-IsRefused _ c _ w denied)
  serve-IsRefused (Request.system_status_of c) w denied =
      bind-IsRefused _ _ w (protected-IsRefused _ c _ w denied)
