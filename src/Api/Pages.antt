-- ===== src/Api/Pages.antt =====
-- The pages that the API answers with.
use day_trade_intellegence.Api.{Credentials, Listing, checked_offset, value_or}
use day_trade_intellegence.Api.Serve.{Request, Response}
use day_trade_intellegence.Core.Action.{Action, ok, pure, ◌>>=◌}
use day_trade_intellegence.Core.Float.{Float}
use day_trade_intellegence.Db.Models.{Stored, Tables}
use day_trade_intellegence.Db.Session.{IsReliable}
use day_trade_intellegence.Dependencies.{Platform}
use day_trade_intellegence.Domain.Trading.{ListResponse}
use day_trade_intellegence.Prelude.{
  List, Option, String, drop, filter, if◌then◌else◌, is_empty, length, length-map, length-take-le,
  map, none, refl, some, str_eq, take, ℕ, ◌≡◌, ◌≤◌,
}
use day_trade_intellegence.Repositories.Queries.{Sql, paginate, symbol_filter}
use day_trade_intellegence.Services.Query.{
  audit_log_read, list_response, reconciliation_run_read, strategy_run_read, trade_order_read,
}

-- The rows of a symbol: all of them where none is given, or an empty text.
abbrev pub of_symbol :
    {A : Type 0} → (A → String) → Option String → List (Stored A) → List (Stored A)
of_symbol symbol_of none rows = rows
of_symbol symbol_of (some symbol) rows =
    if is_empty symbol then rows else filter (λ row. str_eq (symbol_of row.columns) symbol) rows

pub symbol_filter-of_symbol :
    {A : Type 0} (symbol_of : A → String) (symbol : Option String) (rows : List (Stored A))
    → symbol_filter symbol_of symbol rows ≡ of_symbol symbol_of symbol rows
unfolding symbol_filter
symbol_filter-of_symbol symbol_of none rows = refl
symbol_filter-of_symbol symbol_of (some symbol) rows = refl

-- The page that was asked for. Its limit is from 1 to 500; it counts the rows, and its entries show as
-- many of them as the limit, from the offset on, in the order of the database for this query.
pub record IsPage {F A B : Type 0} (sql : Sql F) (rows : List (Stored A)) (read : Stored A → B)
    (listing : Listing) (r : ListResponse B) : Type 0 where
  pub limit : r.limit ≡ value_or 50 listing.limit
  pub offset : r.offset ≡ value_or 0 listing.offset
  pub least : 1 ≤ r.limit
  pub most : r.limit ≤ 500
  pub total : r.total ≡ length rows
  pub items :
      r.items
      ≡ map read (take r.limit (drop r.offset (sql.by_created_at_desc r.limit r.offset rows)))
  pub bounded : length r.items ≤ r.limit

-- What is promised of an answer: a list of the kind that was asked for, as it was asked for, of the
-- rows of these tables.
abbrev pub Paged : {F : Type 0} → Sql F → Tables F → Request → Response F → Type 0
Paged sql d (Request.trade_orders c listing) (Response.trade_orders r) =
    IsPage sql (of_symbol (λ x. x.symbol) listing.symbol d.trade_orders) trade_order_read listing r
Paged sql d (Request.trade_orders c listing) _ = ⊥
Paged sql d (Request.strategy_runs_of c listing) (Response.strategy_runs_of r) =
    IsPage sql (of_symbol (λ x. x.symbol) listing.symbol d.strategy_runs) strategy_run_read listing
      r
Paged sql d (Request.strategy_runs_of c listing) _ = ⊥
Paged sql d (Request.audit_logs c listing) (Response.audit_logs r) =
    IsPage sql (of_symbol (λ x. x.symbol) listing.symbol d.trade_audit_logs) audit_log_read listing
      r
Paged sql d (Request.audit_logs c listing) _ = ⊥
Paged sql d (Request.reconciliation_runs_of c listing) (Response.reconciliation_runs_of r) =
    IsPage sql d.reconciliation_runs reconciliation_run_read listing r
Paged sql d (Request.reconciliation_runs_of c listing) _ = ⊥
Paged sql d _ _ = Unit

-- The endpoints that give a page, with the caller and the page that was asked for.
pub data IsList : Request → Credentials → Listing → Type 0 where
  trade_orders : (c : Credentials) (l : Listing) → IsList (Request.trade_orders c l) c l
  strategy_runs : (c : Credentials) (l : Listing) → IsList (Request.strategy_runs_of c l) c l
  audit_logs : (c : Credentials) (l : Listing) → IsList (Request.audit_logs c l) c l
  reconciliation_runs :
      (c : Credentials) (l : Listing) → IsList (Request.reconciliation_runs_of c l) c l

module _ {F W : Type 0} ⦃fl : Float F⦄ (platform : Platform F W) where
  -- A query of the query service for a page of the rows of a table.
  abbrev pub query :
      {A B : Type 0}
      → (Tables F → List (Stored A))
      → (Stored A → B)
      → ℕ
      → ℕ
      → Action W (ListResponse B)
  query rows read limit offset =
      (platform.ext.db.select >>= λ t. pure (paginate platform.sql (rows t) limit offset))
      >>= λ found. pure (list_response read limit offset found)

  -- Where the database answers, so does the query, with the page that was asked for.
  pub query-IsPage :
      {A B : Type 0}
      → IsReliable platform.ext.db
      → (rows : Tables F → List (Stored A)) (read : Stored A → B) (listing : Listing) (w : W)
      → 1 ≤ value_or 50 listing.limit
      → value_or 50 listing.limit ≤ 500
      → (r : ListResponse B) × ((query rows read
            (value_or 50 listing.limit)
            (checked_offset listing.offset)
            w).0
          ≡ ok r)
        × IsPage platform.sql (rows (platform.ext.db.tables w)) read listing r
  unfolding paginate list_response checked_offset ◌>>=◌ pure
  query-IsPage reliable rows read listing w least most =
      let limit = value_or 50 listing.limit in
      let offset = checked_offset listing.offset in
      let found = rows (platform.ext.db.tables w) in
      let shown = take limit (drop offset (platform.sql.by_created_at_desc limit offset found)) in
      (
        record { total = length found; limit = limit; offset = offset; items = map read shown },
        rw (reliable.selects w) refl,
        record {
          limit = refl;
          offset = refl;
          least = least;
          most = most;
          total = refl;
          items = refl;
          bounded = rw (length-map read shown) (length-take-le limit _);
        },
      )
