-- ===== src/Services/Reconciliation/Rows.antt =====
-- The answer of a reconciliation and the rows that it stores, written out.
use day_trade_intellegence.Core.Errors.{Error, class_name, message}
use day_trade_intellegence.Core.Float.{Float}
use day_trade_intellegence.Db.Models.{ReconciliationRun}
use day_trade_intellegence.Domain.Json.{Items, Json, Metadata}
use day_trade_intellegence.Domain.Reconciliation.{
  PositionReconciliationItem, ReconciliationResponse, ReconciliationStatus, reconciliation_value,
}
use day_trade_intellegence.Prelude.{
  Bool, Bool-cases, List, String, [], arith, filter, if◌then◌else◌, inl, inr, length, not, refl, ℕ,
  ◌==◌, ◌∷◌, ◌≡◌,
}
use day_trade_intellegence.Repositories.{reconciliation_run_row}
use day_trade_intellegence.Services.Reconciliation.{
  count_mismatched, failed_run, item_dump, items_dump, run_of, summary,
}

module _ {F : Type 0} where
  -- How many of the items do not match.
  abbrev pub differing : List (PositionReconciliationItem F) → ℕ
  differing items = length (filter (λ item. not item.matched) items)

  -- The answer to a comparison: the number of items, how many of them differ, and whether that is none.
  abbrev pub compared_answer :
      String → List (PositionReconciliationItem F) → ReconciliationResponse F
  compared_answer source items =
      let equal = differing items == 0 in
      record {
        status = if equal then ReconciliationStatus.matched else ReconciliationStatus.mismatched;
        source = source;
        checked_symbols = length items;
        mismatched_symbols = differing items;
        items = items;
        detail =
            if equal
            then "All positions matched broker state."
            else "Position mismatches detected during reconciliation.";
      }

  -- The items as they are stored.
  abbrev dumped : List (PositionReconciliationItem F) → Items F
  dumped [] = Items.nil
  dumped (item ∷ items) =
      Items.cons
        (Json.dict (
          Metadata.entry "symbol" (Json.str item.symbol) (
            Metadata.entry "internal_quantity" (Json.float item.internal_quantity) (
              Metadata.entry "broker_quantity" (Json.float item.broker_quantity) (
                Metadata.entry "quantity_difference" (Json.float item.quantity_difference) (
                  Metadata.entry "internal_average_price" (Json.float item.internal_average_price) (
                    Metadata.entry "broker_average_price" (Json.float item.broker_average_price) (
                      Metadata.entry "price_difference" (Json.float item.price_difference)
                        (Metadata.entry "matched" (Json.bool item.matched) Metadata.empty)))))))))
        (dumped items)

  -- The row that is stored of a comparison.
  abbrev pub compared_row : String → List (PositionReconciliationItem F) → ReconciliationRun F
  compared_row source items =
      let equal = differing items == 0 in
      record {
        status = if equal then "MATCHED" else "MISMATCHED";
        source = source;
        checked_symbols = length items;
        mismatched_symbols = differing items;
        detail =
            if equal
            then "All positions matched broker state."
            else "Position mismatches detected during reconciliation.";
        metadata_json = Metadata.entry "items" (Json.list (dumped items)) Metadata.empty;
      }

  -- The row that is stored of an exception.
  abbrev pub failed_row : Bool → Error → ReconciliationRun F
  failed_row use_live_data e = record {
    status = "FAILED";
    source = if use_live_data then "ibkr" else "paper";
    checked_symbols = 0;
    mismatched_symbols = 0;
    detail = "Reconciliation failed.";
    metadata_json =
        Metadata.entry "error_type" (Json.str (class_name e))
          (Metadata.entry "message" (Json.str (message e)) Metadata.empty);
  }

module _ {F : Type 0} ⦃fl : Float F⦄ where
  count-differing :
      (items : List (PositionReconciliationItem F)) → count_mismatched items ≡ differing items
  unfolding count_mismatched
  count-differing [] = refl
  count-differing (item ∷ items) = ground (arith, count-differing items)

  pub summary-answer :
      (source : String) (items : List (PositionReconciliationItem F))
      → summary source items ≡ compared_answer source items
  unfolding summary
  summary-answer source items = rw (count-differing items) refl

  items-dumped : (items : List (PositionReconciliationItem F)) → items_dump items ≡ dumped items
  unfolding items_dump item_dump
  items-dumped [] = refl
  items-dumped (item ∷ items) = rw (items-dumped items) refl

  pub run-row :
      (source : String) (items : List (PositionReconciliationItem F))
      → reconciliation_run_row (run_of (compared_answer source items)) ≡ compared_row source items
  unfolding reconciliation_run_row run_of reconciliation_value
  run-row source items = elim (Bool-cases (differing items == 0)) [
    | inl e ↦ rw (e, items-dumped items) refl
    | inr e ↦ rw (e, items-dumped items) refl
  ]

  pub failed_run-row :
      (use_live_data : Bool) (e : Error)
      → reconciliation_run_row {F = F} (failed_run use_live_data e) ≡ failed_row use_live_data e
  unfolding reconciliation_run_row failed_run reconciliation_value
  failed_run-row use_live_data e = refl
