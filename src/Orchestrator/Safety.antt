-- ===== src/Orchestrator/Safety.antt =====
-- What `process_signal` sends to the broker.
use day_trade_intellegence.Core.Action.{Result, ◌>>=◌}
use day_trade_intellegence.Core.Action.Triple.{Keeps, Triple, Triple-bind, Triple-try_except}
use day_trade_intellegence.Core.Float.{Float, IsOrdered, nought, one}
use day_trade_intellegence.Core.Settings.{Settings}
use day_trade_intellegence.Domain.Trading.{TradeSignalRequest, action_value}
use day_trade_intellegence.External.{BrokerOrder, External, IsSeparated, order}
use day_trade_intellegence.Orchestrator.{
  Approved, approve, process_signal, received_event, record_audit_event, settle,
}
use day_trade_intellegence.Orchestrator.Approval.{IsApproved}
use day_trade_intellegence.Orchestrator.Executed.{Executed, Unsent, settle-Executed}
use day_trade_intellegence.Orchestrator.Frames.{
  IsUnwritten-IsRecorded, accepted-IsUnwritten, approve-Keeps, record_audit_event-Keeps,
  report_failure-Keeps,
}
use day_trade_intellegence.Orchestrator.Sources.{HasEquity, HasEquity-unique}
use day_trade_intellegence.Orchestrator.Warrant.{IsWarranted, approve-IsWarranted}
use day_trade_intellegence.Prelude.{
  Bool-cases, List, ap, false, inl, inr, refl, sym, true, ◌++◌, ◌≡◌, ◌⊎◌,
}
use day_trade_intellegence.Services.Frames.{accepted-IsFramed}
use day_trade_intellegence.Services.Portfolio.{drawdown}
use day_trade_intellegence.Services.Portfolio.Drawdown.{drawdown-ge_one}

-- An approval on a live account, under limits below 1, is of an account with some equity.
solvent :
    {F : Type 0} ⦃fl : Float F⦄ (laws : IsOrdered fl) (settings : Settings F)
    (request : TradeSignalRequest) (a : Approved F)
    → IsApproved settings request a
    → request.dry_run ≡ false
    → fl.lt nought settings.paper_account_equity ≡ true
    → fl.is_finite settings.paper_account_equity ≡ true
    → fl.lt settings.max_drawdown_pct one ≡ true
    → fl.le a.portfolio_snapshot.net_liquidation nought ≡ false
unfolding drawdown
solvent ⦃fl⦄ laws settings request a approved live h k l =
    let net = a.portfolio_snapshot.net_liquidation in
    elim (Bool-cases (fl.le net nought)) [
      | inr e ↦ e
      | inl broke ↦
          let high : fl.le one a.portfolio_snapshot.drawdown_pct ≡ true =
            rw (approved.account live) (drawdown-ge_one laws net _ broke h k) in
          cc (approved.within_drawdown, laws.lt_of_lt_le _ _ _ l high)
    ]

module _ {F W : Type 0} ⦃fl : Float F⦄ (settings : Settings F) (ext : External F W)
    (request : TradeSignalRequest) where
  -- The world in which the workflow starts, after the audit event that the request was received.
  abbrev pub received : W → W
  received w = (record_audit_event settings ext (received_event request) w).1

  -- The orders that the broker has accepted afterwards, from those before, where the steps before the
  -- order ran in this world.
  abbrev pub Sent : W → List BrokerOrder → List BrokerOrder → Type 0
  Sent w before after =
      (after ≡ before)
      ⊎ ((a : Approved F) × IsWarranted settings ext request w a
          × (request.dry_run ≡ false)
          × (after
              ≡ before ++ order request.symbol (action_value a.decision.action) request.quantity))

module _ {F W : Type 0} ⦃fl : Float F⦄ (laws : IsOrdered fl) (settings : Settings F)
    (ext : External F W) (sep : IsSeparated ext) where
  approve-Unsent :
      (request : TradeSignalRequest) (before : List BrokerOrder)
      → Keeps (Unsent settings ext sep before) (approve settings ext request)
  approve-Unsent request before =
      let framed = accepted-IsFramed ext sep (λ l. l ≡ before) in
      let unwritten =
        IsUnwritten-IsRecorded ext.db (accepted-IsUnwritten ext sep (λ l. l ≡ before)) in
      approve-Keeps settings ext unwritten request framed

  Executed-Sent :
      (request : TradeSignalRequest) (v : W) (a : Approved F) (before after : List BrokerOrder)
      → IsWarranted settings ext request v a
      → Executed settings ext sep request a before after
      → Sent settings ext request v before after
  Executed-Sent request v a before after warrant (inl same) = inl same
  Executed-Sent request v a before after warrant (inr (live, more)) = inr (a, warrant, live, more)

  -- The steps before the order ran in this world, with this result, and sent nothing.
  abbrev Decided : TradeSignalRequest → W → List BrokerOrder → Result (Approved F) → W → Type 0
  Decided request v before r w =
      Unsent settings ext sep before w × ((approve settings ext request v).0 ≡ r)

  approve-Decided :
      (request : TradeSignalRequest) (v : W) (before : List BrokerOrder)
      → Triple
          (λ w. Unsent settings ext sep before w × (w ≡ v))
          (approve settings ext request)
          (Decided request v before)
  approve-Decided request v before = record {
    at = λ w h. (
      (approve-Unsent request before).at w h.0,
      ap (λ u. (approve settings ext request u).0) (sym h.1),
    );
  }

  workflow-Sent :
      (request : TradeSignalRequest) (v : W) (before : List BrokerOrder)
      → Triple
          (λ w. Unsent settings ext sep before w × (w ≡ v))
          (approve settings ext request >>= settle settings ext request)
          (λ _ w. Sent settings ext request v before (ext.ib.accepted w))
  workflow-Sent request v before =
      Triple-bind (Decided request v before) _ _ _ (approve-Decided request v before)
        (λ a. record {
          at = λ w h.
              Executed-Sent request v a before _
                (approve-IsWarranted settings ext request laws v a h.1)
                ((settle-Executed settings ext sep request a before).at w h.0);
        })
        (λ e w h. inl h.0)

  received-Unsent :
      (request : TradeSignalRequest) (v : W) (before : List BrokerOrder)
      → Triple
          (λ w. Unsent settings ext sep before w × (w ≡ v))
          (record_audit_event settings ext (received_event request))
          (λ _ w. Unsent settings ext sep before w × (w ≡ received settings ext request v))
  received-Unsent request v before =
      let kept = IsUnwritten-IsRecorded ext.db (accepted-IsUnwritten ext sep (λ l. l ≡ before)) in
      record {
        at = λ w h. (
          (record_audit_event-Keeps settings ext kept _).at w h.0,
          ap (λ u. received settings ext request u) h.1,
        );
      }

  -- Whether the call returns or raises, and whatever the database does, the broker has accepted the
  -- orders from before and at most one more. That one is for the symbol and the quantity of the
  -- request, which asked for no dry run, and goes the way of the decision that the steps before the
  -- order came to in this call. The decision is no HOLD and the crossover of the bars that the market
  -- answered for the symbol then, or without credentials, in local mode, of the synthetic bars of the
  -- symbol; the latest price is the close of the last of them. Equity and drawdown are those of the
  -- account that the broker reported in this call. For a quantity that a float can hold, the price of
  -- the quantity as a share of the equity and the drawdown are not above their limits.
  pub process_signal-Sent :
      (request : TradeSignalRequest) (w : W)
      → Sent settings ext request
          (received settings ext request w)
          (ext.ib.accepted w)
          (ext.ib.accepted (process_signal settings ext request w).1)
  unfolding process_signal
  process_signal-Sent request w =
      let before = ext.ib.accepted w in
      let v = received settings ext request w in
      let sent =
        IsUnwritten-IsRecorded ext.db
          (accepted-IsUnwritten ext sep (Sent settings ext request v before)) in
      (Triple-bind (λ _ u. Unsent settings ext sep before u × (u ≡ v))
          (λ _ u. Sent settings ext request v before (ext.ib.accepted u)) _ _
          (received-Unsent request w before)
          (λ _.
            Triple-try_except _ _ _ _ (workflow-Sent request v before) (λ r u h. h)
              (report_failure-Keeps settings ext sent request))
          (λ e u h. inl h.0)).at
        w (refl, refl)

  -- A live account whose equity is at most 0 never trades: where the NetLiquidation that the broker
  -- reports in this call, 0 if it is missing, is not above 0, the paper equity is positive and finite
  -- and the drawdown limit is below 1, the call adds no order.
  pub process_signal_solvent :
      (request : TradeSignalRequest) (w : W) (equity : F)
      → HasEquity settings ext (received settings ext request w) equity
      → fl.le equity nought ≡ true
      → fl.lt nought settings.paper_account_equity ≡ true
      → fl.is_finite settings.paper_account_equity ≡ true
      → fl.lt settings.max_drawdown_pct one ≡ true
      → ext.ib.accepted (process_signal settings ext request w).1 ≡ ext.ib.accepted w
  process_signal_solvent request w equity reported broke h k l =
      elim (process_signal-Sent request w) [
        | inl same ↦ same
        | inr (a, warrant, live, more) ↦
            let v = received settings ext request w in
            let net = a.portfolio_snapshot.net_liquidation in
            let same : net ≡ equity =
              HasEquity-unique settings ext v net equity ((warrant.account live).0) reported in
            let solid : fl.le net nought ≡ false =
              solvent laws settings request a warrant.approval live h k l in
            cc (same, solid, broke)
      ]
