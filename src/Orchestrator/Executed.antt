-- ===== src/Orchestrator/Executed.antt =====
-- What the execution of an order and the rest of the workflow send to the broker.
use day_trade_intellegence.Core.Action.{Result, Result-cases}
use day_trade_intellegence.Core.Action.Triple.{
  Keeps-bind, Keeps-modify, Keeps-pure, Keeps-raise, Triple, Triple-bind, Triple-if, Triple-pure,
  Triple-raise, Triple-step, Triple-try_except, Triple-try_finally,
}
use day_trade_intellegence.Core.Float.{Float}
use day_trade_intellegence.Core.Settings.{Settings}
use day_trade_intellegence.Domain.Trading.{ExecutionResult, TradeSignalRequest, action_value}
use day_trade_intellegence.External.{BrokerOrder, External, IsSeparated, order}
use day_trade_intellegence.Orchestrator.{Approved, settle}
use day_trade_intellegence.Orchestrator.Frames.{
  IsUnwritten-IsRecorded, accepted-IsUnwritten, record_audit_event-Keeps, record_trade_order-Keeps,
  save_position-Keeps,
}
use day_trade_intellegence.Prelude.{
  List, false, inl, inr, is_empty, not, ◌++◌, ◌==◌, ◌||◌, ◌∙◌, ◌≡◌, ◌⊎◌,
}
use day_trade_intellegence.Services.Execution.{execute_order, submit_order}
use day_trade_intellegence.Services.Frames.{IsFramed, accepted-IsFramed, release_keeps}
use day_trade_intellegence.Services.Risk.{is_hold}

module _ {F W : Type 0} ⦃fl : Float F⦄ (settings : Settings F) (ext : External F W)
    (sep : IsSeparated ext) where
  -- No order so far.
  abbrev pub Unsent : List BrokerOrder → W → Type 0
  Unsent before w = ext.ib.accepted w ≡ before

  -- The orders after an execution step that began with `before`.
  abbrev pub Executed :
      TradeSignalRequest → Approved F → List BrokerOrder → List BrokerOrder → Type 0
  Executed request a before after =
      (after ≡ before)
      ⊎ ((request.dry_run ≡ false)
          × (after
              ≡ before ++ order request.symbol (action_value a.decision.action) request.quantity))

  place_order-Executed :
      (request : TradeSignalRequest) (a : Approved F) (before : List BrokerOrder)
      → request.dry_run ≡ false
      → Triple
          (Unsent before)
          (ext.ib.place_order request.symbol (action_value a.decision.action) request.quantity)
          (λ _ w. Executed request a before (ext.ib.accepted w))
  place_order-Executed request a before live = record { at = λ w h. placed w h }
    where
      placed :
          (w : W)
          → Unsent before w
          → Executed request a before (
              ext.ib.accepted
                (ext.ib.place_order request.symbol
                  (action_value a.decision.action)
                  request.quantity
                  w).1)
      placed w h =
          elim (Result-cases
            (ext.ib.place_order request.symbol (action_value a.decision.action) request.quantity
              w).0) [
                | inl (id, e) ↦ inr (live, rw (sep.place_ok _ _ _ w id e, h))
                | inr (x, e) ↦ elim (sep.place_err _ _ _ w x e) [
                  | inl same ↦ inl (same ∙ h)
                  | inr more ↦ inr (live, rw (more, h))
                ]
              ]

  module _ (request : TradeSignalRequest) (a : Approved F) (before : List BrokerOrder) where
    abbrev ExecutedPost : {A : Type 0} → Result A → W → Type 0
    ExecutedPost _ w = Executed request a before (ext.ib.accepted w)

    placed_frame : IsFramed ext (λ w. Executed request a before (ext.ib.accepted w))
    placed_frame = accepted-IsFramed ext sep (Executed request a before)

    submit_order-Executed :
        request.dry_run ≡ false
        → Triple
            (Unsent before)
            (submit_order settings ext request.symbol a.decision.action request.quantity)
            (ExecutedPost {A = ExecutionResult})
    unfolding submit_order
    submit_order-Executed live =
        Triple-step ExecutedPost (λ e w h. inl h) _ _
          ((accepted-IsFramed ext sep (λ l. l ≡ before)).connect _ _ _)
          λ _.
            Triple-bind ExecutedPost ExecutedPost _ _ (place_order-Executed request a before live)
              (λ id. Keeps-pure _) (λ e w h. h)

    execute_order-Executed :
        Triple
          (Unsent before)
          (execute_order settings ext request.symbol a.decision.action request.quantity
            request.dry_run)
          (ExecutedPost {A = ExecutionResult})
    unfolding execute_order
    execute_order-Executed =
        let unsent : (w : W) → Unsent before w → Executed request a before (ext.ib.accepted w) =
          λ w h. inl h in
        Triple-if (is_hold a.decision.action) _ _ (λ _. Triple-pure ExecutedPost _ unsent)
          λ _.
            Triple-if request.dry_run _ _ (λ _. Triple-pure ExecutedPost _ unsent)
              λ live.
                Triple-if (not ext.ib.available) _ _ (λ _. Triple-raise ExecutedPost _ unsent)
                  λ _.
                    Triple-if (is_empty settings.ibkr_host || settings.ibkr_port == 0) _ _
                      (λ _. Triple-raise ExecutedPost _ unsent)
                      λ _.
                        Triple-step ExecutedPost (λ e. unsent) _ _
                          (Keeps-modify _ (accepted-IsFramed ext sep (λ l. l ≡ before)).create)
                          λ _.
                            Triple-try_finally ExecutedPost ExecutedPost _ _
                              (Triple-try_except ExecutedPost ExecutedPost _ _
                                (submit_order-Executed live) (λ r w h. h) (λ e. Keeps-raise _))
                              (λ r. release_keeps settings ext placed_frame)

    pub settle-Executed : Triple (Unsent before) (settle settings ext request a) ExecutedPost
    unfolding settle
    settle-Executed =
        let unwritten =
          IsUnwritten-IsRecorded ext.db
            (accepted-IsUnwritten ext sep (Executed request a before)) in
        Triple-bind ExecutedPost ExecutedPost _ _ execute_order-Executed
          (λ result. Keeps-bind _ _ (record_trade_order-Keeps settings ext unwritten _) λ _.
            Keeps-bind _ _ (save_position-Keeps settings ext unwritten _) λ _.
              Keeps-bind _ _ (record_audit_event-Keeps settings ext unwritten _) λ _. Keeps-pure _)
          (λ e w h. h)
