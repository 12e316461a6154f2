-- ===== src/Orchestrator/Trail.antt =====
-- The rows that `process_signal` writes, in order, where the database does not fail.
use mathlib.Core.List.{append-nil, append_assoc}
use day_trade_intellegence.Core.Action.{Result, err, ok, ◌>>=◌}
use day_trade_intellegence.Core.Action.Triple.{
  Keeps, Returns, Triple, Triple-bind, Triple-post, Triple-pure, Triple-raise, Triple-step,
  Triple-step_lift, Triple-then, Triple-try_except,
}
use day_trade_intellegence.Core.Errors.{Error}
use day_trade_intellegence.Core.Float.{Float}
use day_trade_intellegence.Core.Settings.{Settings}
use day_trade_intellegence.Db.Models.{Entity, Tables}
use day_trade_intellegence.Db.Session.{IsReliable, IsTransactional}
use day_trade_intellegence.Domain.Trading.{
  ExecutionResult, StrategyDecision, TradeAuditRecord, TradeSignalRequest, TradeSignalResponse,
}
use day_trade_intellegence.External.{External, IsSeparated}
use day_trade_intellegence.Orchestrator.{
  Approved, approve, approved_event, evaluated_event, executed_event, failed_event, process_signal,
  received_event, record_audit_event, record_strategy_run, record_trade_order, report_failure,
  save_position, settle, strategy_run_of, swallow, trade_order_of,
}
use day_trade_intellegence.Orchestrator.Writes.{IsLog, insert-Shows, upsert_position-Shows}
use day_trade_intellegence.Prelude.{
  List, String, [], ap, inl, inr, refl, sym, ℕ, ◌++◌, ◌∙◌, ◌∷◌, ◌≡◌, ◌⊎◌,
}
use day_trade_intellegence.Repositories.{
  audit_log_row, create_audit_log, create_strategy_run, create_trade_order, strategy_run_row,
  trade_order_row,
}
use day_trade_intellegence.Services.Frames.{
  IsFramed, execute_order-Keeps, get_portfolio_snapshot-Keeps, get_recent_bars-Keeps,
  tables-IsFramed,
}

module _ {F : Type 0} (request : TradeSignalRequest) where
  abbrev audit_row : TradeAuditRecord F → List (Entity F)
  audit_row r = Entity.trade_audit_log (audit_log_row r) ∷ []

  abbrev pub received : List (Entity F)
  received = audit_row (received_event request)

  abbrev ran : StrategyDecision F → List (Entity F)
  ran d = received ++ Entity.strategy_run (strategy_run_row (strategy_run_of request d)) ∷ []

  abbrev pub evaluated : StrategyDecision F → List (Entity F)
  evaluated d = ran d ++ audit_row (evaluated_event request d)

  abbrev pub approved : Approved F → List (Entity F)
  approved a = evaluated a.decision ++ audit_row (approved_event request a)

  abbrev ordered : Approved F → ExecutionResult → List (Entity F)
  ordered a result =
      approved a ++ Entity.trade_order (trade_order_row (trade_order_of request a result)) ∷ []

  abbrev pub executed : Approved F → ExecutionResult → List (Entity F)
  executed a result = ordered a result ++ audit_row (executed_event request result)

  -- The rows of a call, but for the position: all of them if it returns; if it raises, those up to
  -- the step that failed, and then the failure.
  abbrev pub Trail : Result (TradeSignalResponse F) → List (Entity F) → Type 0
  Trail (ok response) rows =
      (a : Approved F) × (response.decision ≡ a.decision) × (rows ≡ executed a response.execution)
  Trail (err e) rows =
      (rows ≡ received ++ audit_row (failed_event request e))
      ⊎ ((d : StrategyDecision F) × (rows ≡ evaluated d ++ audit_row (failed_event request e)))
      ⊎ ((a : Approved F) × (rows ≡ approved a ++ audit_row (failed_event request e)))

-- What a list of rows adds to a view.
abbrev pub all_added : {F A : Type 0} → (Entity F → List A) → List (Entity F) → List A
all_added added [] = []
all_added added (e ∷ rows) = added e ++ all_added added rows

all_added-append :
    {F A : Type 0} (added : Entity F → List A) (rows more : List (Entity F))
    → all_added added (rows ++ more) ≡ all_added added rows ++ all_added added more
all_added-append added [] more = refl
all_added-append added (e ∷ rows) more =
    ap (◌++◌ (added e)) (all_added-append added rows more) ∙ sym (append_assoc (added e) _ _)

module _ {F W A : Type 0} ⦃fl : Float F⦄ (settings : Settings F) (ext : External F W)
    (sep : IsSeparated ext) (writes : IsTransactional ext.db) (reliable : IsReliable ext.db)
    {view : Tables F → List A} {added : Entity F → List A} (log : IsLog view added)
    (request : TradeSignalRequest) (before : List A) where
  -- The view shows what it showed before and what the rows add.
  abbrev pub Grown : List (Entity F) → W → Type 0
  Grown rows w = view (ext.db.tables w) ≡ before ++ all_added added rows

  grow :
      (e : Entity F) (rows : List (Entity F))
      → Triple (Grown rows) (swallow (ext.db.insert e)) (Returns (Grown (rows ++ e ∷ [])))
  grow e rows =
      Triple-post
        (Returns (λ w. view (ext.db.tables w) ≡ (before ++ all_added added rows) ++ added e))
        (Returns (Grown (rows ++ e ∷ []))) _
        (insert-Shows ext writes reliable log e (before ++ all_added added rows)) regroup
    where
      regroup :
          (r : Result (Unit {0})) (w : W)
          → Returns (λ v. view (ext.db.tables v) ≡ (before ++ all_added added rows) ++ added e) r w
          → Returns (Grown (rows ++ e ∷ [])) r w
      regroup (ok u) w h =
          h
          ∙ append_assoc before _ _
          ∙ ap (◌++◌ before) (
              sym (
                all_added-append added rows (e ∷ [])
                ∙ ap (◌++◌ (all_added added rows)) (append-nil _)))
      regroup (err x) w h = absurd h

  reads : (rows : List (Entity F)) → IsFramed ext (Grown rows)
  reads rows = tables-IsFramed ext sep (λ d. view d ≡ before ++ all_added added rows)

  abbrev ApproveTrail : Result (Approved F) → W → Type 0
  ApproveTrail (ok a) w = Grown (approved request a) w
  ApproveTrail (err e) w =
      Grown (received request) w ⊎ ((d : StrategyDecision F) × Grown (evaluated request d) w)

  approve-Trail : Triple (Grown (received request)) (approve settings ext request) ApproveTrail
  unfolding approve record_audit_event record_strategy_run create_audit_log create_strategy_run
  approve-Trail =
      Triple-step ApproveTrail early _ _
        (get_portfolio_snapshot-Keeps settings ext (reads (received request)) _)
        λ s.
          Triple-step ApproveTrail early _ _
            (get_recent_bars-Keeps settings ext (reads (received request)) _ _ _)
            λ bars. Triple-step_lift ApproveTrail early _ _ λ d _.
              Triple-then ApproveTrail _ _ (grow _ (received request)) λ _.
                Triple-then ApproveTrail _ _ (grow _ (ran request d)) λ _.
                  Triple-step_lift ApproveTrail (late d) _ _ λ price _.
                    Triple-step_lift ApproveTrail (late d) _ _ λ flag _.
                      Triple-then ApproveTrail _ _ (grow _ (evaluated request d))
                        λ _. Triple-pure ApproveTrail _ λ w h. h
    where
      early : (e : Error) (w : W) → Grown (received request) w → ApproveTrail (err e) w
      early e w h = inl h

      late :
          (d : StrategyDecision F) (e : Error) (w : W)
          → Grown (evaluated request d) w
          → ApproveTrail (err e) w
      late d e w h = inr (d, h)

  abbrev SettleTrail : Approved F → Result (TradeSignalResponse F) → W → Type 0
  SettleTrail a (ok response) w =
      (response.decision ≡ a.decision) × Grown (executed request a response.execution) w
  SettleTrail a (err e) w = Grown (approved request a) w

  settle-Trail :
      (a : Approved F)
      → Triple (Grown (approved request a)) (settle settings ext request a) (SettleTrail a)
  unfolding settle record_audit_event record_trade_order save_position create_audit_log
      create_trade_order
  settle-Trail a =
      Triple-step (SettleTrail a) (λ e w h. h) _ _
        (execute_order-Keeps settings ext (reads (approved request a)) placed _ _ _ _)
        λ result. Triple-then (SettleTrail a) _ _ (grow _ (approved request a)) λ _.
          Triple-then (SettleTrail a) _ _ (upsert_position-Shows ext writes reliable log _ _) λ _.
            Triple-then (SettleTrail a) _ _ (grow _ (ordered request a result))
              λ _. Triple-pure (SettleTrail a) _ λ w h. (refl, h)
    where
      placed :
          (symbol action : String) (quantity : ℕ)
          → Keeps (Grown (approved request a)) (ext.ib.place_order symbol action quantity)
      placed symbol action quantity = record {
        at = λ w h. rw (sep.place_tables symbol action quantity w) h;
      }

  -- The rows of a call that ended, and the view after them.
  abbrev Ended : Result (TradeSignalResponse F) → W → Type 0
  Ended r w = (rows : List (Entity F)) × Trail request r rows × Grown rows w

  failed :
      (e : Error) (rows : List (Entity F))
      → Trail request (err e) (rows ++ audit_row request (failed_event request e))
      → Triple (Grown rows) (report_failure settings ext request e) Ended
  unfolding report_failure record_audit_event create_audit_log
  failed e rows trail =
      Triple-then Ended _ _ (grow _ _) λ _. Triple-raise Ended e λ w h. (_, trail, h)

  abbrev Stopped : Result (TradeSignalResponse F) → W → Type 0
  Stopped (ok response) w = Ended (ok response) w
  Stopped (err e) w = ApproveTrail (err e) w ⊎ ((a : Approved F) × Grown (approved request a) w)

  report_failure-Ended :
      (e : Error) → Triple (Stopped (err e)) (report_failure settings ext request e) Ended
  report_failure-Ended e = record { at = ended }
    where
      ended :
          (w : W)
          → Stopped (err e) w
          → Ended
              (report_failure settings ext request e w).0
              (report_failure settings ext request e w).1
      ended w (inl (inl h)) = (failed e (received request) (inl refl)).at w h
      ended w (inl (inr (d, h))) = (failed e (evaluated request d) (inr (inl (d, refl)))).at w h
      ended w (inr (a, h)) = (failed e (approved request a) (inr (inr (a, refl)))).at w h

  workflow-Stopped :
      Triple
        (Grown (received request))
        (approve settings ext request >>= settle settings ext request)
        Stopped
  workflow-Stopped =
      Triple-bind ApproveTrail Stopped _ _ approve-Trail
        (λ a. Triple-post (SettleTrail a) Stopped _ (settle-Trail a) (settled a)) (λ e w h. inl h)
    where
      settled :
          (a : Approved F) (r : Result (TradeSignalResponse F)) (w : W)
          → SettleTrail a r w
          → Stopped r w
      settled a (ok response) w (same, h) =
          (executed request a response.execution, (a, same, refl), h)
      settled a (err e) w h = inr (a, h)

  process_signal-Ended : Triple (Grown []) (process_signal settings ext request) Ended
  unfolding process_signal record_audit_event create_audit_log
  process_signal-Ended =
      Triple-then Ended _ _ (grow _ [])
        λ _. Triple-try_except Stopped Ended _ _ workflow-Stopped (λ r w h. h) report_failure-Ended

module _ {F W A : Type 0} ⦃fl : Float F⦄ (settings : Settings F) (ext : External F W)
    (sep : IsSeparated ext) (writes : IsTransactional ext.db) (reliable : IsReliable ext.db) where
  -- A view of the tables that does not show positions shows, after a call, what it showed before and
  -- then what the rows of the call add. If the call returned, the rows are the event RECEIVED, the
  -- strategy run, the events STRATEGY_EVALUATED and RISK_APPROVED, the order and the event EXECUTED.
  -- If it raised, they are the first of these up to the step that raised, and the event FAILED.
  pub process_signal-Trail :
      {view : Tables F → List A} {added : Entity F → List A} (log : IsLog view added)
      (request : TradeSignalRequest) (w : W)
      → (rows : List (Entity F)) × Trail request (process_signal settings ext request w).0 rows
        × (view (ext.db.tables (process_signal settings ext request w).1)
            ≡ view (ext.db.tables w) ++ all_added added rows)
  process_signal-Trail log request w =
      (process_signal-Ended settings ext sep writes reliable log request _).at w
        (sym (append-nil _))
