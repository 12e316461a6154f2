-- ===== src/Domain/Reconciliation.antt =====
-- app/domain/reconciliation.py.
use day_trade_intellegence.Prelude.{ℕ, String, Bool, List}
use day_trade_intellegence.Domain.Json.{Metadata}

pub data ReconciliationStatus : Type 0 where
  matched mismatched failed : ReconciliationStatus

unfoldable pub reconciliation_value : ReconciliationStatus → String
reconciliation_value ReconciliationStatus.matched = "MATCHED"
reconciliation_value ReconciliationStatus.mismatched = "MISMATCHED"
reconciliation_value ReconciliationStatus.failed = "FAILED"

pub record PositionReconciliationItem (F : Type 0) : Type 0 where
  pub symbol : String
  pub internal_quantity : F
  pub broker_quantity : F
  pub quantity_difference : F
  pub internal_average_price : F
  pub broker_average_price : F
  pub price_difference : F
  pub matched : Bool

pub record ReconciliationRunRecord (F : Type 0) : Type 0 where
  pub status : ReconciliationStatus
  pub source : String
  pub checked_symbols : ℕ
  pub mismatched_symbols : ℕ
  pub detail : String
  pub metadata : Metadata F

pub record ReconciliationRunRead (F : Type 0) : Type 0 where
  pub id : ℕ
  pub status : String
  pub source : String
  pub checked_symbols : ℕ
  pub mismatched_symbols : ℕ
  pub detail : String
  pub metadata : Metadata F
  pub created_at : ℕ

pub record ReconciliationResponse (F : Type 0) : Type 0 where
  pub status : ReconciliationStatus
  pub source : String
  pub checked_symbols : ℕ
  pub mismatched_symbols : ℕ
  pub items : List (PositionReconciliationItem F)
  pub detail : String
