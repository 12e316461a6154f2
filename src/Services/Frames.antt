-- ===== src/Services/Frames.antt =====
-- What the reading services leave alone: market data and account snapshots change no view of the
-- world that the broker's reading calls keep.
use day_trade_intellegence.Core.Action.Triple.{
  Keeps, Keeps-bind, Keeps-gets, Keeps-lift, Keeps-pure, keeps_rules,
}
use day_trade_intellegence.Core.Float.{Float}
use day_trade_intellegence.Core.Settings.{Settings}
use day_trade_intellegence.Db.Models.{Tables}
use day_trade_intellegence.Domain.Trading.{SignalAction}
use day_trade_intellegence.External.{BrokerOrder, External, IsSeparated}
use day_trade_intellegence.Prelude.{Bool, Bool-cases, List, String, inl, inr, ℕ}
use day_trade_intellegence.Services.Execution.{execute_order, submit_order}
use day_trade_intellegence.Services.Market.{build_synthetic_bars, get_recent_bars}
use day_trade_intellegence.Services.Portfolio.{
  build_live_snapshot, build_paper_snapshot, get_portfolio_snapshot, read_account, release,
}

-- The calls that only read keep `P`.
pub record IsFramed {F W : Type 0} (ext : External F W) (P : W → Type 0) : Type 0 where
  pub create : (w : W) → P w → P (ext.ib.create w)
  pub connect : (h : String) (p c : ℕ) → Keeps P (ext.ib.connect h p c)
  pub summary : Keeps P ext.ib.account_summary
  pub positions : Keeps P ext.ib.positions
  pub disconnect : (w : W) → P w → P (ext.ib.disconnect w)
  pub bars : (k t s : String) (n : ℕ) (f : String) → Keeps P (ext.alpaca.get_stock_bars k t s n f)

module _ {F W : Type 0} (ext : External F W) (sep : IsSeparated ext) where
  pub accepted-IsFramed :
      (R : List BrokerOrder → Type 0) → IsFramed ext (λ w. R (ext.ib.accepted w))
  accepted-IsFramed R = record {
    create = λ w h. rw (sep.create_accepted w) h;
    connect = λ h p c. record { at = λ w k. rw (sep.connect_accepted h p c w) k };
    summary = record { at = λ w k. rw (sep.summary_accepted w) k };
    positions = record { at = λ w k. rw (sep.positions_accepted w) k };
    disconnect = λ w h. rw (sep.disconnect_accepted w) h;
    bars = λ k t s n f. record { at = λ w h. rw (sep.bars_accepted k t s n f w) h };
  }

  pub tables-IsFramed : (R : Tables F → Type 0) → IsFramed ext (λ w. R (ext.db.tables w))
  tables-IsFramed R = record {
    create = λ w h. rw (sep.create_tables w) h;
    connect = λ h p c. record { at = λ w k. rw (sep.connect_tables h p c w) k };
    summary = record { at = λ w k. rw (sep.summary_tables w) k };
    positions = record { at = λ w k. rw (sep.positions_tables w) k };
    disconnect = λ w h. rw (sep.disconnect_tables w) h;
    bars = λ k t s n f. record { at = λ w h. rw (sep.bars_tables k t s n f w) h };
  }

module _ {F W : Type 0} ⦃fl : Float F⦄ (settings : Settings F) (ext : External F W) {P : W → Type 0}
    (framed : IsFramed ext P) where
  pub release_keeps : (w : W) → P w → P (release ext.ib w)
  unfolding release
  release_keeps w h = elim (Bool-cases (ext.ib.is_connected w)) [
    | inl e ↦ rw e (framed.disconnect w h)
    | inr e ↦ rw e h
  ]

  build_synthetic_bars-Keeps :
      (symbol : String) (limit : ℕ) → Keeps P (build_synthetic_bars {F = F} ext.python symbol limit)
  unfolding build_synthetic_bars
  build_synthetic_bars-Keeps symbol limit = record { at = λ w h. h }

  pub get_recent_bars-Keeps :
      (symbol timeframe : String) (limit : ℕ)
      → Keeps P (get_recent_bars settings ext symbol timeframe limit)
  unfolding get_recent_bars
  get_recent_bars-Keeps symbol timeframe limit =
      search (keeps_rules, framed.bars, build_synthetic_bars-Keeps) depth 9

  read_account-Keeps : Keeps P (read_account settings ext)
  unfolding read_account
  read_account-Keeps = Keeps-bind _ _ (framed.connect _ _ _) λ _.
      Keeps-bind _ _ framed.summary λ values. Keeps-bind _ _ framed.positions λ positions.
        Keeps-bind _ _ (Keeps-lift _) λ net. Keeps-bind _ _ (Keeps-lift _) λ funds.
          Keeps-bind _ _ (Keeps-lift _) λ power. Keeps-bind _ _ (Keeps-gets _) λ as_of. Keeps-pure _

  build_paper_snapshot-Keeps : Keeps P (build_paper_snapshot settings ext)
  unfolding build_paper_snapshot
  build_paper_snapshot-Keeps = record { at = λ w h. h }

  build_live_snapshot-Keeps : Keeps P (build_live_snapshot settings ext)
  unfolding build_live_snapshot
  build_live_snapshot-Keeps =
      search (keeps_rules, read_account-Keeps, framed.create, release_keeps) depth 9

  pub get_portfolio_snapshot-Keeps :
      (use_live_data : Bool) → Keeps P (get_portfolio_snapshot settings ext use_live_data)
  unfolding get_portfolio_snapshot
  get_portfolio_snapshot-Keeps use_live_data =
      search (keeps_rules, build_paper_snapshot-Keeps, build_live_snapshot-Keeps)

  -- Placing the order is no reading call.
  pub execute_order-Keeps :
      ((symbol action : String) (quantity : ℕ)
        → Keeps P (ext.ib.place_order symbol action quantity))
      → (symbol : String) (action : SignalAction) (quantity : ℕ) (dry_run : Bool)
      → Keeps P (execute_order settings ext symbol action quantity dry_run)
  unfolding execute_order submit_order
  execute_order-Keeps placed symbol action quantity dry_run =
      search (keeps_rules, framed.connect, framed.create, placed, release_keeps) depth 12
