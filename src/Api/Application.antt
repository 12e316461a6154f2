-- ===== src/Api/Application.antt =====
-- app/main.py and app/middleware/request_context.py: the stack around the routes. Starlette has the
-- handler of `Exception` outside the middleware, and the other handlers inside it.
use day_trade_intellegence.Api.{value_or}
use day_trade_intellegence.Api.Serve.{Request, Response, serve}
use day_trade_intellegence.Core.Action.{Action, pure, raise, try_except, ◌>>=◌}
use day_trade_intellegence.Core.Errors.{Error, ErrorResponse, respond}
use day_trade_intellegence.Core.Float.{Float}
use day_trade_intellegence.Dependencies.{Platform}
use day_trade_intellegence.Prelude.{
  Bool, Option, String, false, if◌then◌else◌, inl, inr, none, some, true, ℕ, ◌⊎◌,
}

pub record HttpResponse (F : Type 0) : Type 0 where
  pub status_code : ℕ
  pub body : Response F ⊎ ErrorResponse
  -- the header `X-Request-ID`
  pub request_id : Option String

-- `enqueue_reconciliation` answers 202, any other route 200.
unfoldable pub success_code : {F : Type 0} → Response F → ℕ
success_code (Response.enqueued task queued) = 202
success_code _ = 200

unfoldable pub success : {F : Type 0} → Response F → HttpResponse F
unfolding success_code
success response = record {
  status_code = success_code response;
  body = inl response;
  request_id = none;
}

unfoldable pub failure : {F : Type 0} → Error → HttpResponse F
unfolding respond
failure exc = record {
  status_code = (respond exc).status_code;
  body = inr (respond exc);
  request_id = none;
}

-- The exceptions that have a handler of their own.
unfoldable pub is_handled : Error → Bool
is_handled (Error.http_exception s m) = true
is_handled (Error.other c m) = false
is_handled (Error.configuration_error m) = true
is_handled (Error.market_data_error m) = true
is_handled (Error.strategy_error m) = true
is_handled (Error.risk_violation_error m) = true
is_handled (Error.execution_error m) = true

module _ {F W : Type 0} ⦃fl : Float F⦄ (platform : Platform F W) where
  -- the routes with the handlers of their exceptions
  unfoldable pub call_next : Request → Action W (HttpResponse F)
  unfolding serve success failure is_handled
  call_next request =
      try_except (do response ← serve platform request; pure (success response))
        (λ exc. if is_handled exc then pure (failure exc) else raise exc)

  -- `RequestContextMiddleware.dispatch`; the clock is read for the log alone
  unfoldable pub dispatch : Option String → String → Request → Action W (HttpResponse F)
  unfolding call_next
  dispatch header fresh request = do
    response ← call_next request
    pure (record response { request_id = some (value_or fresh header) })

  -- A whole call; `fresh` is `str(uuid.uuid4())`. Starlette raises an exception without a handler of its
  -- own once more after the answer, for the log of the server.
  unfoldable pub application : Option String → String → Request → Action W (HttpResponse F)
  unfolding dispatch failure
  application header fresh request =
      try_except (dispatch header fresh request) (λ exc. pure (failure exc))
