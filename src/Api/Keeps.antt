-- ===== src/Api/Keeps.antt =====
-- What every endpoint keeps.
use day_trade_intellegence.Api.Routes
use day_trade_intellegence.Repositories.Queries
use day_trade_intellegence.Services.Query
use day_trade_intellegence.Api.{Credentials, Listing}
use day_trade_intellegence.Api.Application.{application, call_next, dispatch}
use day_trade_intellegence.Api.Routes.Current.{
  answer_claims, answer_token, answer_user, get_current_user,
}
use day_trade_intellegence.Api.Serve.{Request, serve}
use day_trade_intellegence.Api.Stable.{
  IsStable, get_system_status-Keeps, protected-Keeps, query-Keeps, reconcile_positions-Keeps,
  snapshot-Keeps, with_session-Keeps,
}
use day_trade_intellegence.Core.Action.Triple.{
  Keeps, Keeps-bind, Keeps-gets, Keeps-if, Keeps-lift, Keeps-pure, Keeps-raise, Keeps-try_except,
}
use day_trade_intellegence.Core.Float.{Float}
use day_trade_intellegence.Db.Models.{Stored, User}
use day_trade_intellegence.Dependencies.{
  Platform, get_auth_service, get_operational_status_service, get_portfolio_service,
  get_query_service, get_reconciliation_service, get_trading_orchestrator,
}
use day_trade_intellegence.Domain.Trading.{TradeSignalRequest}
use day_trade_intellegence.Orchestrator.Frames.{process_signal-Keeps}
use day_trade_intellegence.Prelude.{Bool, List, Option, String, none, refl, some, ℕ, ◌≡◌}
use day_trade_intellegence.Security.Access.{bearer_token}
use day_trade_intellegence.Security.Access.Frames.{get_by_username-Keeps}
use day_trade_intellegence.Security.Crypto.{Claims}
use day_trade_intellegence.Security.Login.{login}

module _ {F W : Type 0} ⦃fl : Float F⦄ (platform : Platform F W) {P : ℕ → W → Type 0}
    (stable : IsStable platform P) where
  -- Where placing an order keeps the view, the trading workflow does.
  pub signal-Keeps :
      ((n : ℕ) (symbol action : String) (quantity : ℕ)
        → Keeps (P n) (platform.ext.ib.place_order symbol action quantity))
      → (c : Credentials) (request : TradeSignalRequest) (n : ℕ)
      → Keeps (P n) (Routes.generate_and_execute_signal platform c request)
  unfolding Routes.generate_and_execute_signal get_trading_orchestrator
  signal-Keeps placed c request = protected-Keeps platform stable _ c _ λ n.
      Keeps-bind _ _ (Keeps-lift _) λ checked.
        process_signal-Keeps platform.settings platform.ext (stable.recorded n) (stable.framed n)
          (placed n) checked

  trade_orders-Keeps :
      (c : Credentials) (listing : Listing) (n : ℕ)
      → Keeps (P n) (Routes.list_trade_orders platform c listing)
  unfolding Routes.list_trade_orders get_query_service Query.list_trade_orders
      Queries.list_trade_orders
  trade_orders-Keeps c listing =
      protected-Keeps platform stable _ c _
        λ n. Keeps-bind _ _ (Keeps-lift _) λ limit. query-Keeps platform stable _ _ n

  positions-Keeps :
      (c : Credentials) (symbol : Option String) (n : ℕ)
      → Keeps (P n) (Routes.list_positions platform c symbol)
  unfolding Routes.list_positions get_query_service Query.list_positions Queries.list_positions
  positions-Keeps c symbol =
      protected-Keeps platform stable _ c _ λ n. query-Keeps platform stable _ _ n

  strategy_runs-Keeps :
      (c : Credentials) (listing : Listing) (n : ℕ)
      → Keeps (P n) (Routes.list_strategy_runs platform c listing)
  unfolding Routes.list_strategy_runs get_query_service Query.list_strategy_runs
      Queries.list_strategy_runs
  strategy_runs-Keeps c listing =
      protected-Keeps platform stable _ c _
        λ n. Keeps-bind _ _ (Keeps-lift _) λ limit. query-Keeps platform stable _ _ n

  audit_logs-Keeps :
      (c : Credentials) (listing : Listing) (n : ℕ)
      → Keeps (P n) (Routes.list_audit_logs platform c listing)
  unfolding Routes.list_audit_logs get_query_service Query.list_audit_logs Queries.list_audit_logs
  audit_logs-Keeps c listing =
      protected-Keeps platform stable _ c _
        λ n. Keeps-bind _ _ (Keeps-lift _) λ limit. query-Keeps platform stable _ _ n

  reconciliation_runs-Keeps :
      (c : Credentials) (limit offset : Option ℕ) (n : ℕ)
      → Keeps (P n) (Routes.list_reconciliation_runs platform c limit offset)
  unfolding Routes.list_reconciliation_runs get_query_service Query.list_reconciliation_runs
      Queries.list_reconciliation_runs
  reconciliation_runs-Keeps c limit offset =
      protected-Keeps platform stable _ c _
        λ n. Keeps-bind _ _ (Keeps-lift _) λ checked. query-Keeps platform stable _ _ n

  portfolio-Keeps :
      (c : Credentials) (live : Option Bool) (n : ℕ)
      → Keeps (P n) (Routes.get_portfolio_summary platform c live)
  unfolding Routes.get_portfolio_summary get_portfolio_service
  portfolio-Keeps c live = protected-Keeps platform stable _ c _ (snapshot-Keeps platform stable _)

  reconcile-Keeps :
      (c : Credentials) (live : Option Bool) (n : ℕ)
      → Keeps (P n) (Routes.run_reconciliation platform c live)
  unfolding Routes.run_reconciliation get_reconciliation_service
  reconcile-Keeps c live =
      protected-Keeps platform stable _ c _ (reconcile_positions-Keeps platform stable _)

  enqueue-Keeps :
      (c : Credentials) (live : Option Bool) (n : ℕ)
      → Keeps (P n) (Routes.enqueue_reconciliation platform c live)
  unfolding Routes.enqueue_reconciliation
  enqueue-Keeps c live =
      protected-Keeps platform stable _ c _
        λ n. Keeps-bind _ _ (stable.delayed n _) λ task. Keeps-pure _

  admin-Keeps : (c : Credentials) (n : ℕ) → Keeps (P n) (Routes.admin_system_status platform c)
  unfolding Routes.admin_system_status get_operational_status_service
  admin-Keeps c = protected-Keeps platform stable _ c _ (get_system_status-Keeps platform stable)

  readiness-Keeps : (n : ℕ) → Keeps (P n) (Routes.readiness_check platform)
  unfolding Routes.readiness_check get_operational_status_service
  readiness-Keeps = get_system_status-Keeps platform stable

  login-Keeps :
      (username password : String) (n : ℕ)
      → Keeps (P n) (Routes.login_route platform username password)
  unfolding Routes.login_route get_auth_service login
  login-Keeps username password = with_session-Keeps platform stable _ λ n.
      Keeps-bind _ _ (get_by_username-Keeps platform.ext.db (stable.selected n) username)
        λ user. Keeps-bind _ _ (Keeps-gets _) λ now. Keeps-lift _

  user-Keeps : (o : Option (Stored User)) (n : ℕ) → Keeps (P n) (answer_user platform o)
  unfolding answer_user
  user-Keeps none n = Keeps-raise _
  user-Keeps (some user) n = Keeps-pure _

  claims-Keeps : (o : Option Claims) (n : ℕ) → Keeps (P n) (answer_claims platform o)
  unfolding answer_claims
  claims-Keeps none n = Keeps-raise _
  claims-Keeps (some claims) n =
      Keeps-bind _ _ (get_by_username-Keeps platform.ext.db (stable.selected n) _)
        λ user. user-Keeps _ n

  token-Keeps : (o : Option (List ℕ)) (n : ℕ) → Keeps (P n) (answer_token platform o)
  unfolding answer_token
  token-Keeps none n = Keeps-raise _
  token-Keeps (some token) n = Keeps-bind _ _ (Keeps-gets _) λ now. claims-Keeps _ n

  current-Keeps :
      (authorization : Option (List ℕ)) (n : ℕ)
      → Keeps (P n) (get_current_user platform authorization)
  unfolding get_current_user
  current-Keeps authorization =
      with_session-Keeps platform stable _ (token-Keeps (bearer_token authorization))

  root-Keeps : (n : ℕ) → Keeps (P n) (Routes.service_root platform)
  unfolding Routes.service_root
  root-Keeps n = Keeps-pure _

  health-Keeps : (n : ℕ) → Keeps (P n) (Routes.health_check platform)
  unfolding Routes.health_check
  health-Keeps n = Keeps-pure _

  -- What the trading workflow is to keep, for the one endpoint that runs it.
  abbrev pub Signals : Request → Type 0
  Signals asked =
      (c : Credentials) (request : TradeSignalRequest)
      → asked ≡ Request.signal c request
      → (n : ℕ) → Keeps (P n) (Routes.generate_and_execute_signal platform c request)

  pub serve-Keeps : (asked : Request) → Signals asked → (n : ℕ) → Keeps (P n) (serve platform asked)
  unfolding serve
  serve-Keeps Request.root signals n = Keeps-bind _ _ (root-Keeps n) λ r. Keeps-pure _
  serve-Keeps Request.health signals n = Keeps-bind _ _ (health-Keeps n) λ r. Keeps-pure _
  serve-Keeps Request.readiness signals n = Keeps-bind _ _ (readiness-Keeps n) λ r. Keeps-pure _
  serve-Keeps (Request.login_user username password) signals n =
      Keeps-bind _ _ (login-Keeps username password n) λ r. Keeps-pure _
  serve-Keeps (Request.current_user authorization) signals n =
      Keeps-bind _ _ (current-Keeps authorization n) λ r. Keeps-pure _
  serve-Keeps (Request.signal c request) signals n =
      Keeps-bind _ _ (signals c request refl n) λ r. Keeps-pure _
  serve-Keeps (Request.trade_orders c listing) signals n =
      Keeps-bind _ _ (trade_orders-Keeps c listing n) λ r. Keeps-pure _
  serve-Keeps (Request.positions_of c listing) signals n =
      Keeps-bind _ _ (positions-Keeps c listing.symbol n) λ r. Keeps-pure _
  serve-Keeps (Request.strategy_runs_of c listing) signals n =
      Keeps-bind _ _ (strategy_runs-Keeps c listing n) λ r. Keeps-pure _
  serve-Keeps (Request.audit_logs c listing) signals n =
      Keeps-bind _ _ (audit_logs-Keeps c listing n) λ r. Keeps-pure _
  serve-Keeps (Request.portfolio_summary c live) signals n =
      Keeps-bind _ _ (portfolio-Keeps c live n) λ r. Keeps-pure _
  serve-Keeps (Request.reconcile_book c live) signals n =
      Keeps-bind _ _ (reconcile-Keeps c live n) λ r. Keeps-pure _
  serve-Keeps (Request.enqueue c live) signals n =
      Keeps-bind _ _ (enqueue-Keeps c live n) λ r. Keeps-pure _
  serve-Keeps (Request.reconciliation_runs_of c listing) signals n =
      Keeps-bind _ _ (reconciliation_runs-Keeps c listing.limit listing.offset n) λ r. Keeps-pure _
  serve-Keeps (Request.system_status_of c) signals n =
      Keeps-bind _ _ (admin-Keeps c n) λ r. Keeps-pure _

  pub application-Keeps :
      (header : Option String) (fresh : String) (asked : Request)
      → Signals asked
      → (n : ℕ) → Keeps (P n) (application platform header fresh asked)
  unfolding application dispatch call_next
  application-Keeps header fresh asked signals n =
      Keeps-try_except _ _
        (Keeps-bind _ _
          (Keeps-try_except _ _ (Keeps-bind _ _ (serve-Keeps asked signals n) λ r. Keeps-pure _)
            λ exc. Keeps-if _ _ _ (Keeps-pure _) (Keeps-raise _))
          λ r. Keeps-pure _)
        λ exc. Keeps-pure _
