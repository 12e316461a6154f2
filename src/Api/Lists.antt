-- ===== src/Api/Lists.antt =====
-- The endpoints that give a list: the pages that they answer with.
use day_trade_intellegence.Api.Routes
use day_trade_intellegence.Repositories.Queries
use day_trade_intellegence.Services.Query
use mathlib.Core.Path.{subst}
use day_trade_intellegence.Api.{
  Credentials, Listing, checked_limit, checked_offset, operator_roles, protected, unprocessable,
  value_or,
}
use day_trade_intellegence.Api.Check.{IsNeutral, check, check_tables, opened}
use day_trade_intellegence.Api.Pages.{
  IsList, IsPage, Paged, of_symbol, query, query-IsPage, symbol_filter-of_symbol,
}
use day_trade_intellegence.Api.Serve.{Request, Response, serve}
use day_trade_intellegence.Core.Action.{Action, Result, err, lift, ok, pure, try_finally, ◌>>=◌}
use day_trade_intellegence.Core.Action.Recover.{bind_err, bind_ok}
use day_trade_intellegence.Core.Float.{Float}
use day_trade_intellegence.Db.Factory.{with_session}
use day_trade_intellegence.Db.Models.{Stored, Tables}
use day_trade_intellegence.Db.Session.{IsReliable, IsTransactional}
use day_trade_intellegence.Dependencies.{Platform, get_query_service}
use day_trade_intellegence.Domain.Trading.{ListResponse}
use day_trade_intellegence.External.{IsSeparated}
use day_trade_intellegence.Prelude.{
  Bool-cases, List, String, ap, arith, false, inl, inr, leb, refl, sym, ◌&&◌, ◌∙◌, ◌≡◌, ◌≤◌, ◌⊎◌,
}
use day_trade_intellegence.Repositories.Queries.{symbol_filter}
use day_trade_intellegence.Services.Query.{
  audit_log_read, reconciliation_run_read, strategy_run_read, trade_order_read,
}

module _ {F W : Type 0} ⦃fl : Float F⦄ (platform : Platform F W) (neutral : IsNeutral platform)
    (sep : IsSeparated platform.ext) (writes : IsTransactional platform.ext.db)
    (reliable : IsReliable platform.ext.db) where
  -- The answer to a query with this limit: a value of which `Q` holds, or the refusal of the limit.
  abbrev Limited : {A : Type 0} → Listing → (A → Type 0) → Result A → Type 0
  Limited {A} listing Q result =
      let n = value_or 50 listing.limit in
      ((1 ≤ n) × (n ≤ 500) × ((r : A) × (result ≡ ok r) × Q r))
      ⊎ (((leb 1 n && leb n 500) ≡ false) × (result ≡ err unprocessable))

  module _ {A B : Type 0} (rows : Tables F → List (Stored A)) (read : Stored A → B)
      (c : Credentials) (listing : Listing) where
    abbrev listed : Action W (ListResponse B)
    listed = lift (checked_limit listing.limit) >>= λ limit.
        query platform rows read limit (checked_offset listing.offset)

    abbrev Page : Tables F → ListResponse B → Type 0
    Page d = IsPage platform.sql (rows d) read listing

    listed-Limited : (v : W) → Limited listing (Page (platform.ext.db.tables v)) (listed v).0
    unfolding checked_limit lift ◌>>=◌
    listed-Limited v =
        let n = value_or 50 listing.limit in
        elim (Bool-cases (leb 1 n && leb n 500)) [
          | inl fits ↦
              let least : 1 ≤ n = ground (arith, fits) in
              let most : n ≤ 500 = ground (arith, fits) in
              rw fits
                (inl (least, most, query-IsPage platform reliable rows read listing v least most))
          | inr out ↦ rw out (inr (refl, refl))
        ]

    route-Limited :
        (w : W) (role : String)
        → (check platform operator_roles c w).0 ≡ ok role
        → Limited listing
            (Page (platform.ext.db.tables w))
            (protected platform operator_roles c listed w).0
    unfolding protected with_session try_finally
    route-Limited w role e =
        let v = (check platform operator_roles c w).1 in
        let answered : Limited listing (Page (platform.ext.db.tables w)) (listed v).0 =
          subst (λ d. Limited listing (Page d) (listed v).0)
            (check_tables platform neutral sep writes reliable operator_roles c w)
            (listed-Limited v) in
        subst (Limited listing (Page (platform.ext.db.tables w)))
          (sym (ap (λ x. x.0) (bind_ok _ (λ role. listed) (opened platform w) role e))) answered

  -- The answer of a list endpoint to a caller whom it lets in: the page, for a limit from 1 to 500,
  -- and 422 for any other.
  abbrev pub Lists : Request → Listing → W → Type 0
  Lists asked listing w =
      let n = value_or 50 listing.limit in
      ((1 ≤ n)
        × (n ≤ 500)
        × ((response : Response F) × ((serve platform asked w).0 ≡ ok response)
            × Paged platform.sql (platform.ext.db.tables w) asked response))
      ⊎ (((leb 1 n && leb n 500) ≡ false) × ((serve platform asked w).0 ≡ err unprocessable))

  lists :
      {B : Type 0} (asked : Request) (listing : Listing) (w : W) (m : Action W (ListResponse B))
      (f : ListResponse B → Response F) (Q : ListResponse B → Type 0)
      → ((r : ListResponse B) → Q r → Paged platform.sql (platform.ext.db.tables w) asked (f r))
      → serve platform asked w ≡ (m >>= λ r. pure (f r)) w
      → Limited listing Q (m w).0
      → Lists asked listing w
  unfolding pure
  lists asked listing w m f Q k e (inl (least, most, (r, returned, page))) =
      let answered = ap (λ x. x.0) (e ∙ bind_ok m (λ r. pure (f r)) w r returned) in
      inl (least, most, (f r, answered, k r page))
  lists asked listing w m f Q k e (inr (out, refused)) =
      inr (out, ap (λ x. x.0) (e ∙ bind_err m (λ r. pure (f r)) w unprocessable refused))

  routed :
      {A B : Type 0} (rows : Tables F → List (Stored A)) (read : Stored A → B) (asked : Request)
      (c : Credentials) (listing : Listing) (w : W) (role : String)
      (f : ListResponse B → Response F)
      → ((r : ListResponse B)
          → IsPage platform.sql (rows (platform.ext.db.tables w)) read listing r
          → Paged platform.sql (platform.ext.db.tables w) asked (f r))
      → serve platform asked w
        ≡ (protected platform operator_roles c (listed rows read c listing) >>= λ r. pure (f r)) w
      → (check platform operator_roles c w).0 ≡ ok role
      → Lists asked listing w
  routed rows read asked c listing w role f k e entered =
      lists asked listing w (protected platform operator_roles c (listed rows read c listing)) f
        (IsPage platform.sql (rows (platform.ext.db.tables w)) read listing) k e
        (route-Limited rows read c listing w role entered)

  -- The rows that the code filters are those of the symbol.
  filtered :
      {A B : Type 0} (symbol_of : A → String) (found : List (Stored A)) (read : Stored A → B)
      (listing : Listing) (r : ListResponse B)
      → IsPage platform.sql (symbol_filter symbol_of listing.symbol found) read listing r
      → IsPage platform.sql (of_symbol symbol_of listing.symbol found) read listing r
  filtered symbol_of found read listing r h =
      subst (λ rows. IsPage platform.sql rows read listing r)
        (symbol_filter-of_symbol symbol_of listing.symbol found) h

  -- Where the database does not fail, an endpoint that gives a list answers a caller whom it lets in.
  -- For a limit from 1 to 500, which is 50 where none is given, it answers with the page that was asked
  -- for: it counts the rows of the table that are of the symbol, if one is given, and shows as many of
  -- them as the limit, from the offset on, which is 0 where none is given, in the order of the database
  -- for that query. For any other limit it answers with 422.
  pub serve-Lists :
      (asked : Request) (c : Credentials) (listing : Listing) (w : W) (role : String)
      → IsList asked c listing
      → (check platform operator_roles c w).0 ≡ ok role
      → Lists asked listing w
  unfolding serve Routes.list_trade_orders get_query_service Query.list_trade_orders
      Queries.list_trade_orders Routes.list_strategy_runs Query.list_strategy_runs
      Queries.list_strategy_runs Routes.list_audit_logs Query.list_audit_logs
      Queries.list_audit_logs Routes.list_reconciliation_runs Query.list_reconciliation_runs
      Queries.list_reconciliation_runs
  serve-Lists _ _ _ w role (IsList.trade_orders c listing) e =
      routed (λ (t : Tables F). symbol_filter (λ r. r.symbol) listing.symbol t.trade_orders)
        trade_order_read (Request.trade_orders c listing) c listing w role Response.trade_orders
        (λ r h. filtered _ _ trade_order_read listing r h) refl e
  serve-Lists _ _ _ w role (IsList.strategy_runs c listing) e =
      routed (λ (t : Tables F). symbol_filter (λ r. r.symbol) listing.symbol t.strategy_runs)
        strategy_run_read (Request.strategy_runs_of c listing) c listing w role
        Response.strategy_runs_of (λ r h. filtered _ _ strategy_run_read listing r h) refl e
  serve-Lists _ _ _ w role (IsList.audit_logs c listing) e =
      routed (λ (t : Tables F). symbol_filter (λ r. r.symbol) listing.symbol t.trade_audit_logs)
        audit_log_read (Request.audit_logs c listing) c listing w role Response.audit_logs
        (λ r h. filtered _ _ audit_log_read listing r h) refl e
  serve-Lists _ _ _ w role (IsList.reconciliation_runs c listing) e =
      routed (λ (t : Tables F). t.reconciliation_runs) reconciliation_run_read
        (Request.reconciliation_runs_of c listing) c listing w role Response.reconciliation_runs_of
        (λ r h. h) refl e
