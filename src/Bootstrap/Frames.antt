-- ===== src/Bootstrap/Frames.antt =====
-- What the demo data leaves alone: a view of the world that its writes keep.
use day_trade_intellegence.Bootstrap.{
  demo_position, has_trading_records, insert_demo_data, seed_trading_data,
}
use day_trade_intellegence.Core.Action.Triple.{Keeps, Keeps-bind, Keeps-if, Keeps-pure}
use day_trade_intellegence.Core.Float.{Float}
use day_trade_intellegence.Core.Settings.{Settings}
use day_trade_intellegence.Db.Session.{Session}
use day_trade_intellegence.Domain.Reconciliation.{ReconciliationRunRecord}
use day_trade_intellegence.Orchestrator.Frames.{IsRecorded}
use day_trade_intellegence.Repositories.{create_reconciliation_run}

module _ {F W : Type 0} ⦃fl : Float F⦄ (settings : Settings F) (db : Session F W) {P : W → Type 0}
    (recorded : IsRecorded db P)
    (run_stored : (r : ReconciliationRunRecord F) → Keeps P (create_reconciliation_run db r))
    (selected : Keeps P db.select) where
  insert_demo_data-Keeps : Keeps P (insert_demo_data db)
  unfolding insert_demo_data
  insert_demo_data-Keeps = Keeps-bind _ _ (recorded.audit _) λ a.
      Keeps-bind _ _ (recorded.run _) λ b. Keeps-bind _ _ (recorded.order _) λ c.
        Keeps-bind _ _ (recorded.position demo_position)
          λ d. Keeps-bind _ _ (run_stored _) λ e. Keeps-pure _

  has_trading_records-Keeps : Keeps P (has_trading_records db)
  unfolding has_trading_records
  has_trading_records-Keeps =
      Keeps-bind _ _ selected
        λ orders. Keeps-if _ _ _ (Keeps-pure _) (Keeps-bind _ _ selected λ positions. Keeps-pure _)

  pub seed_trading_data-Keeps : Keeps P (seed_trading_data db settings)
  unfolding seed_trading_data
  seed_trading_data-Keeps = Keeps-if _ _ _ (Keeps-pure _) (
      Keeps-bind _ _ has_trading_records-Keeps
        λ present. Keeps-if _ _ _ (Keeps-pure _) insert_demo_data-Keeps)
