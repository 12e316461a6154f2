-- ===== src/Services/Reconciliation.antt =====
-- app/services/reconciliation_service.py.
pub mod Symbols
pub mod Comparison
pub mod Rows
pub mod Runs
use day_trade_intellegence.Services.Query
use Symbols.{sorted_set}
use day_trade_intellegence.Core.Action.{Action, pure, raise, try_except, ◌>>=◌, ◌>>◌}
use day_trade_intellegence.Core.Errors.{Error, class_name, message}
use day_trade_intellegence.Core.Float.{Float, nought}
use day_trade_intellegence.Core.Settings.{Settings}
use day_trade_intellegence.Domain.Json.{Items, Json, Metadata}
use day_trade_intellegence.Domain.Portfolio.{PortfolioSnapshot}
use day_trade_intellegence.Domain.Reconciliation.{
  PositionReconciliationItem, ReconciliationResponse, ReconciliationRunRecord, ReconciliationStatus,
}
use day_trade_intellegence.Domain.Trading.{PositionRead}
use day_trade_intellegence.External.{External}
use day_trade_intellegence.Prelude.{
  Bool, List, Option, String, [], if◌then◌else◌, length, map, none, not, some, str_eq, ℕ, ◌&&◌,
  ◌++◌, ◌+◌, ◌==◌, ◌∷◌,
}
use day_trade_intellegence.Repositories.{create_reconciliation_run}
use day_trade_intellegence.Repositories.Queries.{Sql}
use day_trade_intellegence.Services.Portfolio.{get_portfolio_snapshot}

-- `{x.symbol: x for x in xs}.get(symbol)`: the last one wins.
unfoldable pub position_for : {A : Type 0} → (A → String) → String → List A → Option A
position_for symbol_of symbol [] = none
position_for symbol_of symbol (x ∷ xs) = elim (position_for symbol_of symbol xs) [
  | some y ↦ some y
  | none ↦ if str_eq (symbol_of x) symbol then some x else none
]

-- `value(x) if x else 0.0`
unfoldable pub value_or_nought : {F A : Type 0} ⦃fl : Float F⦄ → (A → F) → Option A → F
value_or_nought value none = nought
value_or_nought value (some x) = value x

module _ {F : Type 0} ⦃fl : Float F⦄ where
  -- One turn of the loop.
  unfoldable pub compare_symbol :
      List (PositionRead F) → PortfolioSnapshot F → String → PositionReconciliationItem F
  unfolding position_for value_or_nought
  compare_symbol internal_positions portfolio_snapshot symbol =
      let internal = position_for (λ p. p.symbol) symbol internal_positions in
      let broker = position_for (λ p. p.symbol) symbol portfolio_snapshot.positions in
      let internal_quantity = value_or_nought (λ p. fl.of_int p.quantity) internal in
      let broker_quantity = value_or_nought (λ p. p.quantity) broker in
      let internal_average_price = value_or_nought (λ p. p.average_price) internal in
      let broker_average_price = value_or_nought (λ p. p.average_cost) broker in
      let quantity_difference = fl.sub internal_quantity broker_quantity in
      let price_difference = fl.sub internal_average_price broker_average_price in
      record {
        symbol = symbol;
        internal_quantity = internal_quantity;
        broker_quantity = broker_quantity;
        quantity_difference = quantity_difference;
        internal_average_price = internal_average_price;
        broker_average_price = broker_average_price;
        price_difference = price_difference;
        matched =
            fl.lt (fl.abs quantity_difference) (fl.lit 1 4)
            && fl.lt (fl.abs price_difference) (fl.lit 1 2);
      }

  -- `sorted(set(broker_by_symbol) | set(internal_by_symbol))`
  unfoldable pub all_symbols : List (PositionRead F) → PortfolioSnapshot F → List String
  unfolding sorted_set
  all_symbols internal_positions portfolio_snapshot =
      sorted_set
        (map (λ p. p.symbol) portfolio_snapshot.positions ++ map (λ p. p.symbol) internal_positions)

  unfoldable pub compare_positions :
      List (PositionRead F) → PortfolioSnapshot F → List (PositionReconciliationItem F)
  unfolding compare_symbol all_symbols
  compare_positions internal_positions portfolio_snapshot =
      map (compare_symbol internal_positions portfolio_snapshot)
        (all_symbols internal_positions portfolio_snapshot)

  -- `item.model_dump()`
  unfoldable pub item_dump : PositionReconciliationItem F → Metadata F
  item_dump item = Metadata.entry "symbol" (Json.str item.symbol) (
      Metadata.entry "internal_quantity" (Json.float item.internal_quantity) (
        Metadata.entry "broker_quantity" (Json.float item.broker_quantity) (
          Metadata.entry "quantity_difference" (Json.float item.quantity_difference) (
            Metadata.entry "internal_average_price" (Json.float item.internal_average_price) (
              Metadata.entry "broker_average_price" (Json.float item.broker_average_price) (
                Metadata.entry "price_difference" (Json.float item.price_difference)
                  (Metadata.entry "matched" (Json.bool item.matched) Metadata.empty)))))))

  unfoldable pub items_dump : List (PositionReconciliationItem F) → Items F
  unfolding item_dump
  items_dump [] = Items.nil
  items_dump (item ∷ items) = Items.cons (Json.dict (item_dump item)) (items_dump items)

  -- `sum(1 for item in items if not item.matched)`
  unfoldable pub count_mismatched : List (PositionReconciliationItem F) → ℕ
  count_mismatched [] = 0
  count_mismatched (item ∷ items) = (if not item.matched then 1 else 0) + count_mismatched items

  -- The response that a comparison gives.
  unfoldable pub summary : String → List (PositionReconciliationItem F) → ReconciliationResponse F
  unfolding count_mismatched
  summary source items =
      let mismatched_symbols = count_mismatched items in
      record {
        status =
            if mismatched_symbols == 0
            then ReconciliationStatus.matched
            else ReconciliationStatus.mismatched;
        source = source;
        checked_symbols = length items;
        mismatched_symbols = mismatched_symbols;
        items = items;
        detail =
            if mismatched_symbols == 0
            then "All positions matched broker state."
            else "Position mismatches detected during reconciliation.";
      }

  -- What is stored of a response.
  unfoldable pub run_of : ReconciliationResponse F → ReconciliationRunRecord F
  unfolding items_dump
  run_of response = record {
    status = response.status;
    source = response.source;
    checked_symbols = response.checked_symbols;
    mismatched_symbols = response.mismatched_symbols;
    detail = response.detail;
    metadata = Metadata.entry "items" (Json.list (items_dump response.items)) Metadata.empty;
  }

  -- What is stored of an exception.
  unfoldable pub failed_run : Bool → Error → ReconciliationRunRecord F
  unfolding class_name message
  failed_run use_live_data exc = record {
    status = ReconciliationStatus.failed;
    source = if use_live_data then "ibkr" else "paper";
    checked_symbols = 0;
    mismatched_symbols = 0;
    detail = "Reconciliation failed.";
    metadata =
        Metadata.entry "error_type" (Json.str (class_name exc))
          (Metadata.entry "message" (Json.str (message exc)) Metadata.empty);
  }

module _ {F W : Type 0} ⦃fl : Float F⦄ (sql : Sql F) (settings : Settings F)
    (ext : External F W) where
  -- The body of the `try`.
  unfoldable pub reconcile : Bool → Action W (ReconciliationResponse F)
  unfolding get_portfolio_snapshot Query.list_positions create_reconciliation_run compare_positions
      summary run_of
  reconcile use_live_data = do
    portfolio_snapshot ← get_portfolio_snapshot settings ext use_live_data
    internal_positions ← Query.list_positions sql ext.db none
    let items = compare_positions internal_positions.items portfolio_snapshot
    let response = summary portfolio_snapshot.source items
    create_reconciliation_run ext.db (run_of response)
    pure response

  unfoldable pub reconcile_positions : Bool → Action W (ReconciliationResponse F)
  unfolding reconcile failed_run create_reconciliation_run
  reconcile_positions use_live_data =
      try_except (reconcile use_live_data)
        (λ exc. create_reconciliation_run ext.db (failed_run use_live_data exc) >> raise exc)
