-- ===== src/Domain/Trading.antt =====
-- app/domain/trading.py. An `Enum` member is a constructor, and `.value` its text.
use Prim.Native.String.count
use Prim.Native.String
use day_trade_intellegence.Prelude.{ℕ, String, Bool, ◌&&◌, List, Option, leb}
use day_trade_intellegence.Domain.Json.{Metadata}

pub data SignalAction : Type 0 where
  buy sell hold : SignalAction

pub data TradeLifecycleStatus : Type 0 where
  received strategy_evaluated risk_approved executed failed : TradeLifecycleStatus

pub data OrderStatus : Type 0 where
  pending submitted filled rejected simulated failed : OrderStatus

pub data PositionSide : Type 0 where
  long short : PositionSide

unfoldable pub action_value : SignalAction → String
action_value SignalAction.buy = "BUY"
action_value SignalAction.sell = "SELL"
action_value SignalAction.hold = "HOLD"

unfoldable pub lifecycle_value : TradeLifecycleStatus → String
lifecycle_value TradeLifecycleStatus.received = "RECEIVED"
lifecycle_value TradeLifecycleStatus.strategy_evaluated = "STRATEGY_EVALUATED"
lifecycle_value TradeLifecycleStatus.risk_approved = "RISK_APPROVED"
lifecycle_value TradeLifecycleStatus.executed = "EXECUTED"
lifecycle_value TradeLifecycleStatus.failed = "FAILED"

unfoldable pub order_status_value : OrderStatus → String
order_status_value OrderStatus.pending = "PENDING"
order_status_value OrderStatus.submitted = "SUBMITTED"
order_status_value OrderStatus.filled = "FILLED"
order_status_value OrderStatus.rejected = "REJECTED"
order_status_value OrderStatus.simulated = "SIMULATED"
order_status_value OrderStatus.failed = "FAILED"

unfoldable pub side_value : PositionSide → String
side_value PositionSide.long = "LONG"
side_value PositionSide.short = "SHORT"

-- A negative number is below every lower bound, so the numbers of a request that passed validation
-- are naturals.
pub record TradeSignalRequest : Type 0 where
  pub symbol : String
  pub timeframe : String
  pub short_window : ℕ
  pub long_window : ℕ
  pub quantity : ℕ
  pub dry_run : Bool

-- The `Field` constraints, which pydantic checks before the handler runs.
unfoldable pub meets_constraints : TradeSignalRequest → Bool
meets_constraints r =
    leb 1 (String.count r.symbol)
    && leb (String.count r.symbol) 10
    && leb 2 r.short_window
    && leb r.short_window 100
    && leb 3 r.long_window
    && leb r.long_window 200
    && leb 1 r.quantity

pub record MarketBar (F : Type 0) : Type 0 where
  pub close : F
  pub timestamp : String

pub record StrategyDecision (F : Type 0) : Type 0 where
  pub action : SignalAction
  pub confidence : F
  pub reason : String
  pub metadata : Metadata F

pub record ExecutionResult : Type 0 where
  pub status : String
  pub broker_order_id : Option String
  pub message : String

pub record TradeAuditRecord (F : Type 0) : Type 0 where
  pub symbol : String
  pub status : TradeLifecycleStatus
  pub detail : String
  pub metadata : Metadata F

pub record StrategyRunRecord (F : Type 0) : Type 0 where
  pub symbol : String
  pub timeframe : String
  pub short_window : ℕ
  pub long_window : ℕ
  pub action : SignalAction
  pub confidence : F
  pub reason : String
  pub metadata : Metadata F

pub record TradeOrderRecord (F : Type 0) : Type 0 where
  pub symbol : String
  pub action : SignalAction
  pub quantity : ℕ
  pub status : OrderStatus
  pub requested_price : F
  pub broker_order_id : Option String
  pub dry_run : Bool
  pub metadata : Metadata F

pub record PositionRecord (F : Type 0) : Type 0 where
  pub symbol : String
  pub side : PositionSide
  pub quantity : ℕ
  pub average_price : F
  pub metadata : Metadata F

pub record TradeAuditLogRead (F : Type 0) : Type 0 where
  pub id : ℕ
  pub symbol : String
  pub status : String
  pub detail : String
  pub metadata : Metadata F
  pub created_at : ℕ

pub record StrategyRunRead (F : Type 0) : Type 0 where
  pub id : ℕ
  pub symbol : String
  pub timeframe : String
  pub short_window : ℕ
  pub long_window : ℕ
  pub action : String
  pub confidence : F
  pub reason : String
  pub metadata : Metadata F
  pub created_at : ℕ

pub record TradeOrderRead (F : Type 0) : Type 0 where
  pub id : ℕ
  pub symbol : String
  pub action : String
  pub quantity : ℕ
  pub status : String
  pub requested_price : F
  pub broker_order_id : Option String
  pub dry_run : Bool
  pub metadata : Metadata F
  pub created_at : ℕ

pub record PositionRead (F : Type 0) : Type 0 where
  pub id : ℕ
  pub symbol : String
  pub side : String
  pub quantity : ℕ
  pub average_price : F
  pub metadata : Metadata F
  pub updated_at : ℕ

-- `TradeAuditLogListResponse`, `StrategyRunListResponse` and `TradeOrderListResponse`, which differ
-- in the type of their items alone.
pub record ListResponse (A : Type 0) : Type 0 where
  pub total : ℕ
  pub limit : ℕ
  pub offset : ℕ
  pub items : List A

pub record PositionListResponse (F : Type 0) : Type 0 where
  pub total : ℕ
  pub items : List (PositionRead F)

pub record TradeSignalResponse (F : Type 0) : Type 0 where
  pub symbol : String
  pub decision : StrategyDecision F
  pub risk_approved : Bool
  pub execution : ExecutionResult
