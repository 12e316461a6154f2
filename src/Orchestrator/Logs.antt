-- ===== src/Orchestrator/Logs.antt =====
-- What a reader of the tables sees of a call of `process_signal`: the audit events of the trade, and
-- the orders, where the database does not fail.
use mathlib.Core.List.{map-append, append-nil}
use day_trade_intellegence.Core.Action.{Result, err, ok}
use day_trade_intellegence.Core.Float.{Float}
use day_trade_intellegence.Core.Settings.{Settings}
use day_trade_intellegence.Db.Models.{Entity, Tables, TradeOrder, add_row}
use day_trade_intellegence.Db.Session.{IsReliable, IsTransactional, with_position}
use day_trade_intellegence.Domain.Trading.{
  TradeSignalRequest, TradeSignalResponse, action_value, order_status_value,
}
use day_trade_intellegence.External.{External, IsSeparated}
use day_trade_intellegence.Orchestrator.{
  approved_event, evaluated_event, executed_event, failed_event, order_status, process_signal,
  received_event, trade_order_of,
}
use day_trade_intellegence.Orchestrator.Trail.{Trail, all_added, process_signal-Trail}
use day_trade_intellegence.Orchestrator.Writes.{IsLog}
use day_trade_intellegence.Prelude.{
  List, String, [], ap, inl, inr, map, refl, sym, ℕ, ◌++◌, ◌∷◌, ◌≡◌, ◌⊎◌,
}
use day_trade_intellegence.Repositories.{audit_log_row, trade_order_row}

module _ {F : Type 0} where
  -- The column `status` of the audit log.
  abbrev pub statuses : Tables F → List String
  statuses d = map (λ row. row.columns.status) d.trade_audit_logs

  abbrev pub status_of : Entity F → List String
  status_of (Entity.trade_audit_log r) = r.status ∷ []
  status_of (Entity.user r) = []
  status_of (Entity.strategy_run r) = []
  status_of (Entity.trade_order r) = []
  status_of (Entity.position r) = []
  status_of (Entity.reconciliation_run r) = []

  abbrev pub orders : Tables F → List (TradeOrder F)
  orders d = map (λ row. row.columns) d.trade_orders

  abbrev order_of : Entity F → List (TradeOrder F)
  order_of (Entity.trade_order r) = r ∷ []
  order_of (Entity.user r) = []
  order_of (Entity.strategy_run r) = []
  order_of (Entity.trade_audit_log r) = []
  order_of (Entity.position r) = []
  order_of (Entity.reconciliation_run r) = []

  statuses-adds :
      (i t : ℕ) (e : Entity F) (d : Tables F)
      → statuses (add_row i t e d) ≡ statuses d ++ status_of e
  unfolding add_row
  statuses-adds i t (Entity.trade_audit_log r) d = map-append _ d.trade_audit_logs _
  statuses-adds i t (Entity.user r) d = sym (append-nil _)
  statuses-adds i t (Entity.strategy_run r) d = sym (append-nil _)
  statuses-adds i t (Entity.trade_order r) d = sym (append-nil _)
  statuses-adds i t (Entity.position r) d = sym (append-nil _)
  statuses-adds i t (Entity.reconciliation_run r) d = sym (append-nil _)

  pub statuses-IsLog : IsLog statuses status_of
  unfolding with_position
  statuses-IsLog = record { adds = statuses-adds; moves = λ i t p d. refl; positions = λ p. refl }

  orders-adds :
      (i t : ℕ) (e : Entity F) (d : Tables F) → orders (add_row i t e d) ≡ orders d ++ order_of e
  unfolding add_row
  orders-adds i t (Entity.trade_order r) d = map-append _ d.trade_orders _
  orders-adds i t (Entity.user r) d = sym (append-nil _)
  orders-adds i t (Entity.strategy_run r) d = sym (append-nil _)
  orders-adds i t (Entity.trade_audit_log r) d = sym (append-nil _)
  orders-adds i t (Entity.position r) d = sym (append-nil _)
  orders-adds i t (Entity.reconciliation_run r) d = sym (append-nil _)

  orders-IsLog : IsLog orders order_of
  unfolding with_position
  orders-IsLog = record { adds = orders-adds; moves = λ i t p d. refl; positions = λ p. refl }

  -- The statuses that a call adds to the audit log.
  abbrev pub Audited : Result (TradeSignalResponse F) → List String → Type 0
  Audited (ok response) added =
      added ≡ "RECEIVED" ∷ "STRATEGY_EVALUATED" ∷ "RISK_APPROVED" ∷ "EXECUTED" ∷ []
  Audited (err e) added =
      (added ≡ "RECEIVED" ∷ "FAILED" ∷ [])
      ⊎ (added ≡ "RECEIVED" ∷ "STRATEGY_EVALUATED" ∷ "FAILED" ∷ [])
      ⊎ (added ≡ "RECEIVED" ∷ "STRATEGY_EVALUATED" ∷ "RISK_APPROVED" ∷ "FAILED" ∷ [])

  Trail-Audited :
      (request : TradeSignalRequest) (r : Result (TradeSignalResponse F)) (rows : List (Entity F))
      → Trail request r rows
      → Audited r (all_added status_of rows)
  unfolding received_event evaluated_event approved_event executed_event failed_event audit_log_row
  Trail-Audited request (ok response) rows (a, same, e) = rw e refl
  Trail-Audited request (err x) rows (inl e) = inl (rw e refl)
  Trail-Audited request (err x) rows (inr (inl (d, e))) = inr (inl (rw e refl))
  Trail-Audited request (err x) rows (inr (inr (a, e))) = inr (inr (rw e refl))

  -- The orders that a call adds to the table of orders.
  abbrev pub Ordered :
      TradeSignalRequest → Result (TradeSignalResponse F) → List (TradeOrder F) → Type 0
  Ordered request (ok response) added =
      (o : TradeOrder F) × (added ≡ o ∷ [])
      × (o.symbol ≡ request.symbol)
      × (o.action ≡ action_value response.decision.action)
      × (o.quantity ≡ request.quantity)
      × (o.dry_run ≡ request.dry_run)
      × (o.status ≡ order_status_value (order_status response.execution))
      × (o.broker_order_id ≡ response.execution.broker_order_id)
  Ordered request (err e) added = added ≡ []

  Trail-Ordered :
      (request : TradeSignalRequest) (r : Result (TradeSignalResponse F)) (rows : List (Entity F))
      → Trail request r rows
      → Ordered request r (all_added order_of rows)
  unfolding trade_order_of trade_order_row
  Trail-Ordered request (ok response) rows (a, same, e) = (
    trade_order_row (trade_order_of request a response.execution),
    rw e refl,
    refl,
    ap (λ d. action_value d.action) (sym same),
    refl,
    refl,
    refl,
    refl,
  )
  Trail-Ordered request (err x) rows (inl e) = rw e refl
  Trail-Ordered request (err x) rows (inr (inl (d, e))) = rw e refl
  Trail-Ordered request (err x) rows (inr (inr (a, e))) = rw e refl

module _ {F W : Type 0} ⦃fl : Float F⦄ (settings : Settings F) (ext : External F W)
    (sep : IsSeparated ext) (writes : IsTransactional ext.db) (reliable : IsReliable ext.db)
    (request : TradeSignalRequest) (w : W) where
  -- Where the database does not fail, a call that returns adds exactly the events RECEIVED,
  -- STRATEGY_EVALUATED, RISK_APPROVED and EXECUTED to the audit log, in this order. One that raises
  -- adds the first one, two or three of them and then FAILED.
  pub process_signal-Audited :
      (added : List String) × Audited (process_signal settings ext request w).0 added
      × (statuses (ext.db.tables (process_signal settings ext request w).1)
          ≡ statuses (ext.db.tables w) ++ added)
  process_signal-Audited =
      let (rows, trail, grown) =
        process_signal-Trail settings ext sep writes reliable statuses-IsLog request w in
      (_, Trail-Audited request _ rows trail, grown)

  -- Where the database does not fail, a call that returns adds one row to the table of orders: the
  -- symbol, the quantity and the dry-run flag of the request, the action of the decision that it
  -- answers with, the status and the broker's identifier of the execution that it answers with. One
  -- that raises adds none.
  pub process_signal-Ordered :
      (added : List (TradeOrder F)) × Ordered request
        (process_signal settings ext request w).0
        added
      × (orders (ext.db.tables (process_signal settings ext request w).1)
          ≡ orders (ext.db.tables w) ++ added)
  process_signal-Ordered =
      let (rows, trail, grown) =
        process_signal-Trail settings ext sep writes reliable orders-IsLog request w in
      (_, Trail-Ordered request _ rows trail, grown)
