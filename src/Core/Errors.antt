-- ===== src/Core/Errors.antt =====
-- app/core/errors.py: the exceptions, and the responses that the exception handlers send for them.
use day_trade_intellegence.Prelude.{ℕ, String, Bool, true, false, Option, none, some}

-- The domain exceptions, each with its message; FastAPI's `HTTPException`; and any other exception,
-- with the name of its class and its message.
pub data Error : Type 0 where
  configuration_error market_data_error strategy_error : String → Error
  risk_violation_error execution_error : String → Error
  http_exception : ℕ → String → Error
  other : String → String → Error

-- `exc.__class__.__name__`
unfoldable pub class_name : Error → String
class_name (Error.configuration_error m) = "ConfigurationError"
class_name (Error.market_data_error m) = "MarketDataError"
class_name (Error.strategy_error m) = "StrategyError"
class_name (Error.risk_violation_error m) = "RiskViolationError"
class_name (Error.execution_error m) = "ExecutionError"
class_name (Error.http_exception s m) = "HTTPException"
class_name (Error.other c m) = c

-- `str(exc)`
unfoldable pub message : Error → String
message (Error.configuration_error m) = m
message (Error.market_data_error m) = m
message (Error.strategy_error m) = m
message (Error.risk_violation_error m) = m
message (Error.execution_error m) = m
message (Error.http_exception s m) = m
message (Error.other c m) = m

-- `isinstance(exc, TradingPlatformError)`
unfoldable pub is_trading_platform_error : Error → Bool
is_trading_platform_error (Error.http_exception s m) = false
is_trading_platform_error (Error.other c m) = false
is_trading_platform_error (Error.configuration_error m) = true
is_trading_platform_error (Error.market_data_error m) = true
is_trading_platform_error (Error.strategy_error m) = true
is_trading_platform_error (Error.risk_violation_error m) = true
is_trading_platform_error (Error.execution_error m) = true

-- The body of an error response: `detail`, and `error_type` where the handler gives one.
pub record ErrorResponse : Type 0 where
  pub status_code : ℕ
  pub detail : String
  pub error_type : Option String

-- `handle_trading_error`
unfoldable pub handle_trading_error : Error → ErrorResponse
unfolding class_name message
handle_trading_error exc = record {
  status_code = 400;
  detail = message exc;
  error_type = some (class_name exc);
}

-- `handle_unexpected_error`
unfoldable pub handle_unexpected_error : Error → ErrorResponse
handle_unexpected_error exc = record {
  status_code = 500;
  detail = "An unexpected internal error occurred.";
  error_type = none;
}

-- `register_exception_handlers`: the handler of the nearest class takes an exception. An
-- `HTTPException` keeps FastAPI's own handler, which answers with its status and its detail.
unfoldable pub respond : Error → ErrorResponse
unfolding is_trading_platform_error handle_trading_error handle_unexpected_error
respond (Error.http_exception s m) = record { status_code = s; detail = m; error_type = none }
respond (Error.other c m) = handle_unexpected_error (Error.other c m)
respond (Error.configuration_error m) = handle_trading_error (Error.configuration_error m)
respond (Error.market_data_error m) = handle_trading_error (Error.market_data_error m)
respond (Error.strategy_error m) = handle_trading_error (Error.strategy_error m)
respond (Error.risk_violation_error m) = handle_trading_error (Error.risk_violation_error m)
respond (Error.execution_error m) = handle_trading_error (Error.execution_error m)
