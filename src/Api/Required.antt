-- ===== src/Api/Required.antt =====
-- The roles that the endpoints ask for.
use day_trade_intellegence.Api.{Credentials}
use day_trade_intellegence.Api.Serve.{Request}
use day_trade_intellegence.Prelude.{List, Option, String, [], none, some, ◌∷◌}

-- What an endpoint asks for: the roles, of the caller with these headers.
pub record Guard : Type 0 where
  pub roles : List String
  pub credentials : Credentials

abbrev guarded : List String → Credentials → Option Guard
guarded roles credentials = some (record { roles = roles; credentials = credentials })

-- Who may call which endpoint: everybody the landing page, the probes and the two endpoints that
-- check a user themselves; any role the trading workflow; an operator or an administrator the
-- reports, the account and the reconciliation; an administrator the status of the system.
abbrev pub required : Request → Option Guard
required Request.root = none
required Request.health = none
required Request.readiness = none
required (Request.login_user username password) = none
required (Request.current_user authorization) = none
required (Request.signal c request) = guarded ("TRADER" ∷ "OPERATOR" ∷ "ADMIN" ∷ []) c
required (Request.trade_orders c listing) = guarded ("OPERATOR" ∷ "ADMIN" ∷ []) c
required (Request.positions_of c listing) = guarded ("OPERATOR" ∷ "ADMIN" ∷ []) c
required (Request.strategy_runs_of c listing) = guarded ("OPERATOR" ∷ "ADMIN" ∷ []) c
required (Request.audit_logs c listing) = guarded ("OPERATOR" ∷ "ADMIN" ∷ []) c
required (Request.portfolio_summary c live) = guarded ("OPERATOR" ∷ "ADMIN" ∷ []) c
required (Request.reconcile_book c live) = guarded ("OPERATOR" ∷ "ADMIN" ∷ []) c
required (Request.enqueue c live) = guarded ("OPERATOR" ∷ "ADMIN" ∷ []) c
required (Request.reconciliation_runs_of c listing) = guarded ("OPERATOR" ∷ "ADMIN" ∷ []) c
required (Request.system_status_of c) = guarded ("ADMIN" ∷ []) c
