-- ===== src/Services/Reconciliation/Runs.antt =====
-- What `reconcile_positions` answers and what it stores, where the database does not fail.
use day_trade_intellegence.Repositories.Queries
use day_trade_intellegence.Services.Query
use mathlib.Core.List.{append-nil, map-append}
use day_trade_intellegence.Core.Action.{Result, err, ok}
use day_trade_intellegence.Core.Action.Triple.{
  Gives, Triple, Triple-bind, Triple-gives, Triple-pure, Triple-raise, Triple-try_except,
}
use day_trade_intellegence.Core.Float.{Float}
use day_trade_intellegence.Core.Settings.{Settings}
use day_trade_intellegence.Db.Models.{Entity, ReconciliationRun, Tables, add_row}
use day_trade_intellegence.Db.Session.{IsReliable, IsTransactional, with_position}
use day_trade_intellegence.Domain.Portfolio.{PortfolioSnapshot}
use day_trade_intellegence.Domain.Reconciliation.{ReconciliationResponse, ReconciliationRunRecord}
use day_trade_intellegence.Domain.Trading.{PositionRead}
use day_trade_intellegence.External.{External, IsSeparated}
use day_trade_intellegence.Orchestrator.Writes.{IsLog, insert-Returns}
use day_trade_intellegence.Prelude.{
  Bool, List, [], ap, length, map, none, refl, sym, ℕ, ◌++◌, ◌∙◌, ◌∷◌, ◌≡◌,
}
use day_trade_intellegence.Repositories.{create_reconciliation_run, reconciliation_run_row}
use day_trade_intellegence.Repositories.Queries.{Sql, symbol_filter}
use day_trade_intellegence.Services.Frames.{get_portfolio_snapshot-Keeps, tables-IsFramed}
use day_trade_intellegence.Services.Portfolio.{get_portfolio_snapshot}
use day_trade_intellegence.Services.Query.{position_read}
use day_trade_intellegence.Services.Reconciliation.{
  compare_positions, reconcile, reconcile_positions, run_of,
}
use day_trade_intellegence.Services.Reconciliation.Rows.{
  compared_answer, compared_row, failed_row, failed_run-row, run-row, summary-answer,
}

module _ {F : Type 0} where
  -- The rows of the table of reconciliation runs.
  abbrev pub runs : Tables F → List (ReconciliationRun F)
  runs d = map (λ row. row.columns) d.reconciliation_runs

  abbrev run_row : Entity F → List (ReconciliationRun F)
  run_row (Entity.reconciliation_run r) = r ∷ []
  run_row (Entity.user r) = []
  run_row (Entity.trade_audit_log r) = []
  run_row (Entity.strategy_run r) = []
  run_row (Entity.trade_order r) = []
  run_row (Entity.position r) = []

  runs-adds : (i t : ℕ) (e : Entity F) (d : Tables F) → runs (add_row i t e d) ≡ runs d ++ run_row e
  unfolding add_row
  runs-adds i t (Entity.reconciliation_run r) d = map-append _ d.reconciliation_runs _
  runs-adds i t (Entity.user r) d = sym (append-nil _)
  runs-adds i t (Entity.trade_audit_log r) d = sym (append-nil _)
  runs-adds i t (Entity.strategy_run r) d = sym (append-nil _)
  runs-adds i t (Entity.trade_order r) d = sym (append-nil _)
  runs-adds i t (Entity.position r) d = sym (append-nil _)

  runs-IsLog : IsLog runs run_row
  unfolding with_position
  runs-IsLog = record { adds = runs-adds; moves = λ i t p d. refl; positions = λ p. refl }

module _ {F W : Type 0} ⦃fl : Float F⦄ (sql : Sql F) (ext : External F W) (d : Tables F) where
  abbrev At : W → Type 0
  At w = ext.db.tables w ≡ d

  -- The positions of the internal book, as the query service lists them.
  abbrev pub book : List (PositionRead F)
  book = map position_read (sql.by_symbol d.positions)

module _ {F W : Type 0} ⦃fl : Float F⦄ (sql : Sql F) (settings : Settings F) (ext : External F W)
    (use_live_data : Bool) where
  -- How a call ends, from the world in which it began: it compares the stored positions with the
  -- snapshot that the portfolio service gave then, or raises what that raised.
  abbrev pub Recorded : W → Result (ReconciliationResponse F) → W → Type 0
  Recorded before (ok response) w =
      (snapshot : PortfolioSnapshot F) × ((get_portfolio_snapshot settings ext use_live_data
          before).0
        ≡ ok snapshot)
      × (response
          ≡ compared_answer snapshot.source
              (compare_positions (book sql ext (ext.db.tables before)) snapshot))
      × (runs (ext.db.tables w)
          ≡ runs (ext.db.tables before)
            ++ compared_row snapshot.source
                (compare_positions (book sql ext (ext.db.tables before)) snapshot)
              ∷ [])
  Recorded before (err e) w =
      ((get_portfolio_snapshot settings ext use_live_data before).0 ≡ err e)
      × (runs (ext.db.tables w) ≡ runs (ext.db.tables before) ++ failed_row use_live_data e ∷ [])

  -- The end of the `try`: an exception comes before the run is stored.
  abbrev Reconciled : W → Result (ReconciliationResponse F) → W → Type 0
  Reconciled before (ok response) w = Recorded before (ok response) w
  Reconciled before (err e) w =
      ((get_portfolio_snapshot settings ext use_live_data before).0 ≡ err e)
      × At sql ext (ext.db.tables before) w

module _ {F W : Type 0} ⦃fl : Float F⦄ (sql : Sql F) (settings : Settings F) (ext : External F W)
    (sep : IsSeparated ext) (writes : IsTransactional ext.db) (reliable : IsReliable ext.db)
    (d : Tables F) where
  list_positions-Gives : Triple (At sql ext d) (Query.list_positions sql ext.db none) (
      Gives
        (record { total = length (sql.by_symbol d.positions); items = book sql ext d })
        (At sql ext d))
  unfolding Query.list_positions Queries.list_positions symbol_filter
  list_positions-Gives =
      let reads : Triple (At sql ext d) ext.db.select (Gives d (At sql ext d)) = record {
        at = λ w h. (reliable.selects w ∙ ap ok h, writes.select_reads w ∙ h);
      } in
      Triple-gives
        (Gives (record { total = length (sql.by_symbol d.positions); items = book sql ext d })
          (At sql ext d))
        (length (sql.by_symbol d.positions), sql.by_symbol d.positions) _ _
        (Triple-gives _ d _ _ reads (Triple-pure _ _ λ w h. (refl, h)))
        (Triple-pure _ _ λ w h. (refl, h))

  stored_run :
      (r : ReconciliationRunRecord F)
      → Triple
          (At sql ext d)
          (create_reconciliation_run ext.db r)
          (Gives tt (λ w. runs (ext.db.tables w) ≡ runs d ++ reconciliation_run_row r ∷ []))
  unfolding create_reconciliation_run
  stored_run r = record {
    at = λ w h.
        (insert-Returns ext writes reliable runs-IsLog
            (Entity.reconciliation_run (reconciliation_run_row r)) (runs d)).at
          w (ap runs h);
  }

module _ {F W : Type 0} ⦃fl : Float F⦄ (sql : Sql F) (settings : Settings F) (ext : External F W)
    (sep : IsSeparated ext) (writes : IsTransactional ext.db) (reliable : IsReliable ext.db)
    (use_live_data : Bool) (before : W) where
  -- The portfolio service gave this result, and the tables are those of before.
  abbrev Snapped : Result (PortfolioSnapshot F) → W → Type 0
  Snapped r w =
      ((get_portfolio_snapshot settings ext use_live_data before).0 ≡ r)
      × At sql ext (ext.db.tables before) w

  snapshot-Snapped :
      Triple (λ w. w ≡ before) (get_portfolio_snapshot settings ext use_live_data) Snapped
  snapshot-Snapped =
      let framed = tables-IsFramed ext sep (λ t. t ≡ ext.db.tables before) in
      record {
        at = λ w h. (
          ap (λ v. (get_portfolio_snapshot settings ext use_live_data v).0) (sym h),
          (get_portfolio_snapshot-Keeps settings ext framed _).at w (ap ext.db.tables h),
        );
      }

  abbrev ReconciledPost : Result (ReconciliationResponse F) → W → Type 0
  ReconciledPost = Reconciled sql settings ext use_live_data before

  reconcile-Reconciled :
      Triple (λ w. w ≡ before) (reconcile sql settings ext use_live_data) ReconciledPost
  unfolding reconcile
  reconcile-Reconciled =
      let d = ext.db.tables before in
      Triple-bind Snapped ReconciledPost _ _ snapshot-Snapped
        (λ snapshot. record {
          at = λ w h.
              let items = compare_positions (book sql ext d) snapshot in
              let answer = summary-answer snapshot.source items in
              let row =
                ap (λ r. runs d ++ reconciliation_run_row (run_of r) ∷ []) answer
                ∙ ap (λ row. runs d ++ row ∷ []) (run-row snapshot.source items) in
              (Triple-gives ReconciledPost _ _ _
                  (list_positions-Gives sql settings ext sep writes reliable d)
                  (Triple-gives ReconciledPost tt _ _
                    (stored_run sql settings ext sep writes reliable d _)
                    (Triple-pure ReconciledPost _ λ v k. (snapshot, h.0, answer, k ∙ row)))).at
                w (h.1);
        })
        (λ e w h. h)

  -- Where the database does not fail, a reconciliation returns just when the portfolio service gives a
  -- snapshot in that world. Then its answer is for the comparison of the stored positions with that
  -- snapshot, under the source of the snapshot: how many items there are, how many do not match, and
  -- MATCHED just when that is none. It adds one run to the table of runs, with these numbers, the items
  -- and the same status. Otherwise it raises what the portfolio service raised, and adds one run with
  -- the status FAILED, no symbols, the source that was asked for, and the class and message of the
  -- exception.
  pub reconcile_positions-Recorded :
      Recorded sql settings ext use_live_data before
        (reconcile_positions sql settings ext use_live_data before).0
        (reconcile_positions sql settings ext use_live_data before).1
  unfolding reconcile_positions
  reconcile_positions-Recorded =
      let post = Recorded sql settings ext use_live_data before in
      let d = ext.db.tables before in
      (Triple-try_except ReconciledPost post _ _ reconcile-Reconciled (λ response w h. h)
          λ e. record {
            at = λ w h.
                (Triple-gives post tt _ _ (stored_run sql settings ext sep writes reliable d _) (
                    Triple-raise post e λ v k. (
                      h.0,
                      k ∙ ap (λ row. runs d ++ row ∷ []) (failed_run-row use_live_data e),
                    ))).at
                  w (h.1);
          }).at
        before refl
