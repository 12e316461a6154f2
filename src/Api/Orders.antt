-- ===== src/Api/Orders.antt =====
-- Which calls of the API send an order to the broker.
use day_trade_intellegence.Api.Routes
use mathlib.Core.Path.{subst}
use day_trade_intellegence.Api.{Credentials, all_roles, checked_signal, protected}
use day_trade_intellegence.Api.Answers.{application_answers}
use day_trade_intellegence.Api.Application.{application}
use day_trade_intellegence.Api.Check.{IsNeutral, check, check-IsGranted, check_accepted, opened}
use day_trade_intellegence.Api.Keeps.{serve-Keeps}
use day_trade_intellegence.Api.Serve.{Request, Response, serve}
use day_trade_intellegence.Api.Stable.{IsStable}
use day_trade_intellegence.Core.Action.{Action, Result, Result-cases, lift, ok, try_finally, ◌>>=◌}
use day_trade_intellegence.Core.Action.Recover.{bind_err, bind_ok, bind_pure}
use day_trade_intellegence.Core.Float.{Float, IsOrdered}
use day_trade_intellegence.Db.Factory.{with_session}
use day_trade_intellegence.Db.Session.{IsReliable, IsTransactional}
use day_trade_intellegence.Dependencies.{Platform, get_trading_orchestrator}
use day_trade_intellegence.Domain.Trading.{
  TradeSignalRequest, TradeSignalResponse, action_value, meets_constraints,
}
use day_trade_intellegence.External.{BrokerOrder, IsSeparated, order}
use day_trade_intellegence.Orchestrator.{Approved, process_signal}
use day_trade_intellegence.Orchestrator.Frames.{IsUnwritten-IsRecorded, accepted-IsUnwritten}
use day_trade_intellegence.Orchestrator.Safety.{Sent, process_signal-Sent, received}
use day_trade_intellegence.Orchestrator.Warrant.{IsWarranted}
use day_trade_intellegence.Prelude.{
  Bool, Bool-cases, IsAmong, List, Option, String, [], ap, false, inl, inr, refl, sym, true, ℕ,
  ◌++◌, ◌∙◌, ◌∷◌, ◌≡◌, ◌≢◌, ◌⊎◌,
}
use day_trade_intellegence.Repositories.{create_reconciliation_run}
use day_trade_intellegence.Security.Access.Granted.{IsGranted}
use day_trade_intellegence.Services.Frames.{accepted-IsFramed}

-- The probes and the task queue send no order.
pub record IsOrderless {F W : Type 0} (platform : Platform F W) : Type 0 where
  pub probes :
      (w : W)
      → platform.ext.ib.accepted (platform.sessions.select_one w).1 ≡ platform.ext.ib.accepted w
  pub pings :
      (url : String) (w : W)
      → platform.ext.ib.accepted (platform.redis.ping url w).1 ≡ platform.ext.ib.accepted w
  pub delays :
      (live : Bool) (w : W)
      → platform.ext.ib.accepted (platform.delay live w).1 ≡ platform.ext.ib.accepted w

Request-cases :
    (asked : Request)
    → ((c : Credentials) × (request : TradeSignalRequest) × (asked ≡ Request.signal c request))
      ⊎ ((c : Credentials) (request : TradeSignalRequest) → asked ≢ Request.signal c request)
Request-cases (Request.signal c request) = inl (c, request, refl)
Request-cases Request.root = inr (λ c r e. cc)
Request-cases Request.health = inr (λ c r e. cc)
Request-cases Request.readiness = inr (λ c r e. cc)
Request-cases (Request.login_user username password) = inr (λ c r e. cc)
Request-cases (Request.current_user authorization) = inr (λ c r e. cc)
Request-cases (Request.trade_orders c listing) = inr (λ c r e. cc)
Request-cases (Request.positions_of c listing) = inr (λ c r e. cc)
Request-cases (Request.strategy_runs_of c listing) = inr (λ c r e. cc)
Request-cases (Request.audit_logs c listing) = inr (λ c r e. cc)
Request-cases (Request.portfolio_summary c live) = inr (λ c r e. cc)
Request-cases (Request.reconcile_book c live) = inr (λ c r e. cc)
Request-cases (Request.enqueue c live) = inr (λ c r e. cc)
Request-cases (Request.reconciliation_runs_of c listing) = inr (λ c r e. cc)
Request-cases (Request.system_status_of c) = inr (λ c r e. cc)

module _ {F W : Type 0} ⦃fl : Float F⦄ (laws : IsOrdered fl) (platform : Platform F W)
    (neutral : IsNeutral platform) (orderless : IsOrderless platform)
    (sep : IsSeparated platform.ext) (writes : IsTransactional platform.ext.db)
    (reliable : IsReliable platform.ext.db) where
  abbrev Accepted : List BrokerOrder → ℕ → W → Type 0
  Accepted before n w = platform.ext.ib.accepted w ≡ before

  Accepted-IsStable : (before : List BrokerOrder) → IsStable platform (Accepted before)
  unfolding create_reconciliation_run
  Accepted-IsStable before =
      let unwritten = accepted-IsUnwritten platform.ext sep (λ l. l ≡ before) in
      record {
        framed = λ n. accepted-IsFramed platform.ext sep (λ l. l ≡ before);
        recorded = λ n. IsUnwritten-IsRecorded platform.ext.db unwritten;
        run_stored = λ n r. unwritten.insert _;
        selected = λ n. unwritten.select;
        delayed = λ n live. record { at = λ w h. orderless.delays live w ∙ h };
        opens = λ n w h. neutral.open_accepted w ∙ h;
        closes = λ n w h. neutral.close_accepted w ∙ h;
        selected_one = λ n. record { at = λ w h. orderless.probes w ∙ h };
        pinged = λ n url. record { at = λ w h. orderless.pings url w ∙ h };
      }

  -- What stands behind an order that the broker accepted in a call: the request, the role that the
  -- caller holds, by a token or a key, and the approval of the trade.
  pub record IsCovered (asked : Request) (w : W) (after : List BrokerOrder) : Type 0 where
    pub credentials : Credentials
    pub request : TradeSignalRequest
    pub role : String
    pub approval : Approved F
    pub signal : asked ≡ Request.signal credentials request
    pub allowed : IsAmong role ("TRADER" ∷ "OPERATOR" ∷ "ADMIN" ∷ [])
    pub granted :
        IsGranted platform.crypto platform.settings
          (platform.ext.db.tables w)
          (platform.ext.python.now w)
          credentials.authorization
          credentials.x_api_key
          role
    pub valid : meets_constraints request ≡ true
    pub warrant :
        IsWarranted platform.settings platform.ext request
          (received platform.settings platform.ext request
            (check platform all_roles credentials w).1)
          approval
    pub live : request.dry_run ≡ false
    pub sent :
        after
        ≡ platform.ext.ib.accepted w
          ++ order request.symbol (action_value approval.decision.action) request.quantity

  -- A call added no order, or one that is covered.
  abbrev pub Orders : Request → W → List BrokerOrder → Type 0
  Orders asked w after = (after ≡ platform.ext.ib.accepted w) ⊎ IsCovered asked w after

  module _ (c : Credentials) (request : TradeSignalRequest) (w : W) where
    -- the caller after the check of the roles
    abbrev checked : Result String × W
    checked = check platform all_roles c w

    abbrev body : Action W (TradeSignalResponse F)
    body = lift (checked_signal request) >>= λ r.
        (get_trading_orchestrator platform).process_signal_of r

    unsent : platform.ext.ib.accepted checked.1 ≡ platform.ext.ib.accepted w
    unsent = check_accepted platform neutral sep writes reliable all_roles c w

    Sent-Orders :
        (role : String)
        → checked.0 ≡ ok role
        → meets_constraints request ≡ true
        → (after : List BrokerOrder)
        → Sent platform.settings platform.ext request
            (received platform.settings platform.ext request checked.1)
            (platform.ext.ib.accepted w)
            after
        → Orders (Request.signal c request) w after
    Sent-Orders role e valid after (inl same) = inl same
    Sent-Orders role e valid after (inr (a, warrant, live, more)) =
        let (among, granted) =
          check-IsGranted platform neutral sep writes reliable all_roles c w role e in
        inr (record {
          credentials = c;
          request = request;
          role = role;
          approval = a;
          signal = refl;
          allowed = among;
          granted = granted;
          valid = valid;
          warrant = warrant;
          live = live;
          sent = more;
        })

    body-Orders :
        (role : String)
        → checked.0 ≡ ok role
        → Orders (Request.signal c request) w (platform.ext.ib.accepted (body checked.1).1)
    unfolding checked_signal get_trading_orchestrator lift ◌>>=◌
    body-Orders role e = elim (Bool-cases (meets_constraints request)) [
      | inr invalid ↦ rw invalid (inl unsent)
      | inl valid ↦ rw valid (
          Sent-Orders role e valid _ (
            subst
              (λ l.
                Sent platform.settings platform.ext request
                  (received platform.settings platform.ext request checked.1) l
                  (platform.ext.ib.accepted
                    (process_signal platform.settings platform.ext request checked.1).1))
              unsent
              (process_signal-Sent laws platform.settings platform.ext sep request checked.1)))
    ]

    signal-Orders :
        Orders
          (Request.signal c request)
          w
          (platform.ext.ib.accepted (Routes.generate_and_execute_signal platform c request w).1)
    unfolding Routes.generate_and_execute_signal protected with_session try_finally
    signal-Orders = elim (Result-cases checked.0) [
      | inl (role, e) ↦
          let ran = ap (λ x. x.1) (bind_ok _ (λ u. body) (opened platform w) role e) in
          subst (Orders (Request.signal c request) w)
            (sym (neutral.close_accepted _ ∙ ap platform.ext.ib.accepted ran)) (body-Orders role e)
      | inr (exc, e) ↦
          let ran = ap (λ x. x.1) (bind_err _ (λ u. body) (opened platform w) exc e) in
          inl (neutral.close_accepted _ ∙ ap platform.ext.ib.accepted ran ∙ unsent)
    ]

  serve-Orders :
      (asked : Request) (w : W)
      → Orders asked w (platform.ext.ib.accepted (serve platform asked w).1)
  unfolding serve
  serve-Orders asked w = elim (Request-cases asked) [
    | inl (c, request, e) ↦
        subst (λ a. Orders a w (platform.ext.ib.accepted (serve platform a w).1)) (sym e)
          (subst (Orders (Request.signal c request) w)
            (sym (
              ap platform.ext.ib.accepted (
                bind_pure (Routes.generate_and_execute_signal platform c request) Response.signal
                  w)))
            (signal-Orders c request w))
    | inr other ↦ inl (
        (serve-Keeps platform (Accepted-IsStable (platform.ext.ib.accepted w)) asked
            (λ c request e. absurd (other c request e)) 0).at
          w refl)
  ]

  -- Where the database does not fail, a call of the API leaves the broker with the orders from before
  -- and at most one more. That one is for the symbol and the quantity of a request for a signal that
  -- meets its constraints and asked for no dry run, whose caller holds the role of a trader, an
  -- operator or an administrator by a token or an API key. It goes the way of the decision that the
  -- workflow came to in the world after the check of the caller and the audit event: the crossover of
  -- the bars that the market answered for the symbol then, or without credentials, in local mode, of
  -- its synthetic bars; and no HOLD. Equity and drawdown are those of the account that the broker
  -- reported then; for a quantity that a float can hold, the price of the quantity as a share of the
  -- equity and the drawdown are not above their limits.
  pub application-Orders :
      (header : Option String) (fresh : String) (asked : Request) (w : W)
      → Orders asked w (platform.ext.ib.accepted (application platform header fresh asked w).1)
  application-Orders header fresh asked w =
      let answered = ap (λ x. x.1) (application_answers platform header fresh asked w).0 in
      subst (Orders asked w) (sym (ap platform.ext.ib.accepted answered)) (serve-Orders asked w)
