-- ===== src/Orchestrator/Frames.antt =====
-- What the writes of the workflow leave alone: a view of the world that the session's calls keep.
use day_trade_intellegence.Core.Action.{Action}
use day_trade_intellegence.Core.Action.Triple.{
  Keeps, Keeps-bind, Keeps-lift, Keeps-pure, Keeps-raise, Keeps-try_except, keeps_rules,
}
use day_trade_intellegence.Core.Errors.{Error}
use day_trade_intellegence.Core.Float.{Float}
use day_trade_intellegence.Core.Settings.{Settings}
use day_trade_intellegence.Db.Models.{Entity, Position, Stored}
use day_trade_intellegence.Db.Session.{Session}
use day_trade_intellegence.Domain.Trading.{
  PositionRecord, StrategyRunRecord, TradeAuditRecord, TradeOrderRecord, TradeSignalRequest,
}
use day_trade_intellegence.External.{BrokerOrder, External, IsSeparated}
use day_trade_intellegence.Orchestrator.{
  Approved, approve, process_signal, record_audit_event, record_strategy_run, record_trade_order,
  report_failure, save_position, settle, swallow,
}
use day_trade_intellegence.Prelude.{List, Option, String, none, some, ℕ}
use day_trade_intellegence.Repositories.{
  create_audit_log, create_strategy_run, create_trade_order, store_position, upsert_position,
}
use day_trade_intellegence.Services.Frames.{
  IsFramed, execute_order-Keeps, get_portfolio_snapshot-Keeps, get_recent_bars-Keeps,
}

pub record IsUnwritten {F W : Type 0} (db : Session F W) (P : W → Type 0) : Type 0 where
  pub insert : (e : Entity F) → Keeps P (db.insert e)
  pub update : (i : ℕ) (p : Position F) → Keeps P (db.update_position i p)
  pub select : Keeps P db.select

-- Writing to the database sends no order.
pub accepted-IsUnwritten :
    {F W : Type 0} (ext : External F W)
    → IsSeparated ext
    → (R : List BrokerOrder → Type 0) → IsUnwritten ext.db (λ w. R (ext.ib.accepted w))
accepted-IsUnwritten ext sep R = record {
  insert = λ e. record { at = λ w h. rw (sep.insert_accepted e w) h };
  update = λ i p. record { at = λ w h. rw (sep.update_accepted i p w) h };
  select = record { at = λ w h. rw (sep.select_accepted w) h };
}

-- The four writes of the workflow keep `P`.
pub record IsRecorded {F W : Type 0} (db : Session F W) (P : W → Type 0) : Type 0 where
  pub audit : (r : TradeAuditRecord F) → Keeps P (create_audit_log db r)
  pub run : (r : StrategyRunRecord F) → Keeps P (create_strategy_run db r)
  pub order : (r : TradeOrderRecord F) → Keeps P (create_trade_order db r)
  pub position : (r : PositionRecord F) → Keeps P (upsert_position db r)

store_position-Keeps :
    {F W : Type 0} (db : Session F W) {P : W → Type 0} (unwritten : IsUnwritten db P)
    (r : PositionRecord F) (found : Option (Stored (Position F)))
    → Keeps P (store_position db r found)
unfolding store_position
store_position-Keeps db unwritten r none = unwritten.insert _
store_position-Keeps db unwritten r (some row) = unwritten.update _ _

pub IsUnwritten-IsRecorded :
    {F W : Type 0} (db : Session F W) {P : W → Type 0} → IsUnwritten db P → IsRecorded db P
unfolding create_audit_log create_strategy_run create_trade_order upsert_position
IsUnwritten-IsRecorded db unwritten = record {
  audit = λ r. unwritten.insert _;
  run = λ r. unwritten.insert _;
  order = λ r. unwritten.insert _;
  position = λ r.
      Keeps-bind _ _ unwritten.select
        λ tables. Keeps-bind _ _ (Keeps-lift _) (store_position-Keeps db unwritten r);
}

pub swallow-Keeps :
    {W : Type 0} {P : W → Type 0} (m : Action W (Unit {0})) → Keeps P m → Keeps P (swallow m)
unfolding swallow
swallow-Keeps m k = search (keeps_rules, k)

module _ {F W : Type 0} ⦃fl : Float F⦄ (settings : Settings F) (ext : External F W) {P : W → Type 0}
    (recorded : IsRecorded ext.db P) where
  pub record_audit_event-Keeps :
      (r : TradeAuditRecord F) → Keeps P (record_audit_event settings ext r)
  unfolding record_audit_event
  record_audit_event-Keeps r = swallow-Keeps _ (recorded.audit r)

  pub record_strategy_run-Keeps :
      (r : StrategyRunRecord F) → Keeps P (record_strategy_run settings ext r)
  unfolding record_strategy_run
  record_strategy_run-Keeps r = swallow-Keeps _ (recorded.run r)

  pub record_trade_order-Keeps :
      (r : TradeOrderRecord F) → Keeps P (record_trade_order settings ext r)
  unfolding record_trade_order
  record_trade_order-Keeps r = swallow-Keeps _ (recorded.order r)

  pub save_position-Keeps : (r : PositionRecord F) → Keeps P (save_position settings ext r)
  unfolding save_position
  save_position-Keeps r = swallow-Keeps _ (recorded.position r)

  pub report_failure-Keeps :
      (request : TradeSignalRequest) (e : Error) → Keeps P (report_failure settings ext request e)
  unfolding report_failure
  report_failure-Keeps request e = Keeps-bind _ _ (record_audit_event-Keeps _) (λ _. Keeps-raise e)

  -- Everything before the order keeps a view that neither the reads nor the writes touch.
  pub approve-Keeps :
      (request : TradeSignalRequest) → IsFramed ext P → Keeps P (approve settings ext request)
  unfolding approve
  approve-Keeps request framed =
      Keeps-bind _ _ (get_portfolio_snapshot-Keeps settings ext framed _) λ s.
        Keeps-bind _ _ (get_recent_bars-Keeps settings ext framed _ _ _) λ bars.
          Keeps-bind _ _ (Keeps-lift _) λ d. Keeps-bind _ _ (record_strategy_run-Keeps _) λ _.
            Keeps-bind _ _ (record_audit_event-Keeps _) λ _. Keeps-bind _ _ (Keeps-lift _) λ price.
              Keeps-bind _ _ (Keeps-lift _)
                λ approved. Keeps-bind _ _ (record_audit_event-Keeps _) λ _. Keeps-pure _

  -- So does the whole workflow, where placing an order keeps it too.
  module _ (framed : IsFramed ext P)
      (placed : (symbol action : String) (quantity : ℕ)
        → Keeps P (ext.ib.place_order symbol action quantity)) where
    settle-Keeps :
        (request : TradeSignalRequest) (a : Approved F) → Keeps P (settle settings ext request a)
    unfolding settle
    settle-Keeps request a =
        Keeps-bind _ _ (execute_order-Keeps settings ext framed placed _ _ _ _) λ result.
          Keeps-bind _ _ (record_trade_order-Keeps _) λ _.
            Keeps-bind _ _ (save_position-Keeps _)
              λ _. Keeps-bind _ _ (record_audit_event-Keeps _) λ _. Keeps-pure _

    pub process_signal-Keeps :
        (request : TradeSignalRequest) → Keeps P (process_signal settings ext request)
    unfolding process_signal
    process_signal-Keeps request = Keeps-bind _ _ (record_audit_event-Keeps _) λ _.
        Keeps-try_except _ _ (Keeps-bind _ _ (approve-Keeps request framed) (settle-Keeps request))
          (report_failure-Keeps request)
