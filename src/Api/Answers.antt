-- ===== src/Api/Answers.antt =====
-- The HTTP answers of the application.
use day_trade_intellegence.Api.{value_or}
use day_trade_intellegence.Api.Application.{
  HttpResponse, application, call_next, dispatch, failure, is_handled, success,
}
use day_trade_intellegence.Api.Serve.{Request, Response, serve}
use day_trade_intellegence.Core.Action.{Result, Result-cases, err, ok, pure, raise}
use day_trade_intellegence.Core.Action.Recover.{bind_err, bind_ok, try_err, try_ok}
use day_trade_intellegence.Core.Errors.{Error, handle_unexpected_error, respond}
use day_trade_intellegence.Core.Float.{Float}
use day_trade_intellegence.Dependencies.{Platform}
use day_trade_intellegence.Prelude.{
  Bool, Bool-cases, Option, String, ap, false, if◌then◌else◌, inl, inr, none, refl, some, true, ◌∙◌,
  ◌≡◌,
}

if_at :
    {W A : Type 0} (b : Bool) (m n : W → A) (v : W)
    → (if b then m else n) v ≡ (if b then m v else n v)
if_at true m n v = refl
if_at false m n v = refl

module _ {F W : Type 0} ⦃fl : Float F⦄ (platform : Platform F W) where
  -- The answer to what a route returned or raised, for the identifier of the request.
  abbrev pub answer_of : String → Result (Response F) → HttpResponse F
  answer_of id (ok response) = record (success response) { request_id = some id }
  answer_of id (err exc) =
      if is_handled exc then record (failure exc) { request_id = some id } else failure exc

  -- What the middleware and the outer handler make of an inner answer.
  abbrev finish : String → Result (HttpResponse F) → HttpResponse F
  finish id (ok response) = record response { request_id = some id }
  finish id (err exc) = failure exc

  module _ (header : Option String) (fresh : String) (request : Request) (w : W) where
    abbrev id : String
    id = value_or fresh header

    abbrev after : W
    after = (serve platform request w).1

    call_next_ok :
        (response : Response F)
        → (serve platform request w).0 ≡ ok response
        → call_next platform request w ≡ (ok (success response), after)
    unfolding call_next pure
    call_next_ok response e =
        let inner = bind_ok (serve platform request) (λ r. pure (success r)) w response e in
        try_ok _ _ w (success response) (ap (λ x. x.0) inner)
        ∙ ap (λ x. (ok (success response), x.1)) inner

    call_next_err :
        (exc : Error)
        → (serve platform request w).0 ≡ err exc
        → call_next platform request w
          ≡ (if is_handled exc then (ok (failure exc), after) else (err exc, after))
    unfolding call_next pure raise
    call_next_err exc e =
        let inner = bind_err (serve platform request) (λ r. pure (success {F = F} r)) w exc e in
        try_err _ _ w exc (ap (λ x. x.0) inner)
        ∙ ap (λ v. (if is_handled exc then pure (failure {F = F} exc) else raise exc) v)
            (ap (λ x. x.1) inner)
        ∙ if_at (is_handled exc) _ _ after

    -- The rest of the stack, from what the inner handlers left.
    finished :
        (r : Result (HttpResponse F)) (v : W)
        → call_next platform request w ≡ (r, v)
        → application platform header fresh request w ≡ (ok (finish id r), v)
    unfolding application dispatch pure
    finished (ok response) v e =
        let sent =
          bind_ok (call_next platform request) (λ r. pure (record r { request_id = some id })) w
            response (ap (λ x. x.0) e) in
        try_ok _ _ w (finish id (ok response)) (ap (λ x. x.0) sent)
        ∙ ap (λ x. (ok (finish id (ok response)), x.1)) sent
        ∙ ap (λ x. (ok (finish id (ok response)), x.1)) e
    finished (err exc) v e =
        let sent =
          bind_err (call_next platform request) (λ r. pure (record r { request_id = some id })) w
            exc (ap (λ x. x.0) e) in
        try_err _ _ w exc (ap (λ x. x.0) sent)
        ∙ ap (λ x. (ok (failure exc), x.1)) sent
        ∙ ap (λ x. (ok (failure exc), x.1)) e

    -- What an exception without a handler of its own comes to.
    unhandled : (exc : Error) → is_handled exc ≡ false → (failure {F = F} exc).status_code ≡ 500
    unfolding is_handled failure respond handle_unexpected_error
    unhandled (Error.other c m) h = refl
    unhandled (Error.http_exception status m) h = cc
    unhandled (Error.configuration_error m) h = cc
    unhandled (Error.market_data_error m) h = cc
    unhandled (Error.strategy_error m) h = cc
    unhandled (Error.risk_violation_error m) h = cc
    unhandled (Error.execution_error m) h = cc

    answered :
        application platform header fresh request w
        ≡ (ok (answer_of id (serve platform request w).0), after)
    answered = elim (Result-cases (serve platform request w).0) [
      | inl (response, e) ↦ rw e (finished _ _ (call_next_ok response e))
      | inr (exc, e) ↦ elim (Bool-cases (is_handled exc)) [
        | inl h ↦ rw (e, h) (finished (ok (failure exc)) after (call_next_err exc e ∙ rw h refl))
        | inr h ↦ rw (e, h) (finished (err exc) after (call_next_err exc e ∙ rw h refl))
      ]
    ]

    -- The whole stack always answers, and does no more than the route. What a route returns, and the
    -- answer to an exception with a handler of its own, carry the identifier of the request, which is
    -- that of the header where it has one; the answer to any other exception has the status 500 and no
    -- identifier.
    pub application_answers :
        (application platform header fresh request w
          ≡ (ok (answer_of id (serve platform request w).0), (serve platform request w).1))
        × ((exc : Error)
            → is_handled exc ≡ false
            → ((answer_of id (err exc)).status_code ≡ 500)
              × ((answer_of id (err exc)).request_id ≡ none))
    unfolding failure
    application_answers = (answered, λ exc h. (rw h (unhandled exc h), rw h refl))
