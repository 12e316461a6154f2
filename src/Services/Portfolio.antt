-- ===== src/Services/Portfolio.antt =====
-- app/services/portfolio_service.py.
pub mod Drawdown
pub mod Tags
use day_trade_intellegence.Prelude.{
  ◌||◌, String, Bool, not, Option, none, some, List, [], ◌∷◌, ◌==◌, str_eq, if◌then◌else◌, decimal,
  is_empty,
}
use day_trade_intellegence.Core.Errors.{Error}
use day_trade_intellegence.Core.Action.{
  modify, ◌>>=◌, ◌>>◌, Result, ok, err, Action, pure, raise, lift, gets, try_except, try_finally,
}
use day_trade_intellegence.Core.Float.{Float, nought, max}
use day_trade_intellegence.Core.Settings.{Settings}
use day_trade_intellegence.Domain.Portfolio.{PortfolioSnapshot}
use day_trade_intellegence.External.{External, Broker}

-- The value that a dictionary built from the pairs has for a key: the last one wins.
unfoldable pub dict_get : String → List (String × String) → Option String
dict_get key [] = none
dict_get key (pair ∷ pairs) = elim (dict_get key pairs) [
  | some v ↦ some v
  | none ↦ if str_eq pair.0 key then some pair.1 else none
]

-- `finally: if ib.isConnected(): ib.disconnect()`
unfoldable pub release : {F W : Type 0} → Broker F W → W → W
release ib w = if ib.is_connected w then ib.disconnect w else w

module _ {F : Type 0} ⦃fl : Float F⦄ where
  -- `float(account_values.get(tag, 0.0))`
  unfoldable pub account_value : String → List (String × String) → Result F
  unfolding dict_get
  account_value tag values = elim (dict_get tag values) [
    | none ↦ ok nought
    | some text ↦ elim (fl.parse text) [
      | none ↦ err (Error.other "ValueError" "could not convert string to float")
      | some x ↦ ok x
    ]
  ]

  -- The fall of the account below the higher of its value and the paper equity.
  unfoldable pub drawdown : F → F → F
  drawdown net_liquidation paper_account_equity =
      let highest_equity = max net_liquidation paper_account_equity in
      if fl.eq highest_equity nought
      then nought
      else max (fl.div (fl.sub highest_equity net_liquidation) highest_equity) nought

module _ {F W : Type 0} ⦃fl : Float F⦄ where
  unfoldable pub build_paper_snapshot : Settings F → External F W → Action W (PortfolioSnapshot F)
  build_paper_snapshot settings ext w = (
    ok (record {
      account_id = "paper-account";
      source = "paper";
      net_liquidation = settings.paper_account_equity;
      available_funds = settings.paper_account_equity;
      buying_power = settings.paper_buying_power;
      drawdown_pct = nought;
      positions = [];
      as_of = ext.python.now w;
    }),
    w,
  )

  -- The body of the `try`.
  unfoldable pub read_account : Settings F → External F W → Action W (PortfolioSnapshot F)
  unfolding account_value drawdown
  read_account settings ext = do
    ext.ib.connect settings.ibkr_host settings.ibkr_port settings.ibkr_client_id
    values ← ext.ib.account_summary
    positions ← ext.ib.positions
    net_liquidation ← lift (account_value "NetLiquidation" values)
    available_funds ← lift (account_value "AvailableFunds" values)
    buying_power ← lift (account_value "BuyingPower" values)
    as_of ← gets ext.python.now
    pure (record {
      account_id = decimal settings.ibkr_client_id;
      source = "ibkr";
      net_liquidation = net_liquidation;
      available_funds = available_funds;
      buying_power = buying_power;
      drawdown_pct = drawdown net_liquidation settings.paper_account_equity;
      positions = positions;
      as_of = as_of;
    })

  unfoldable pub build_live_snapshot : Settings F → External F W → Action W (PortfolioSnapshot F)
  unfolding read_account release
  build_live_snapshot settings ext =
      if not ext.ib.available
      then raise
          (Error.execution_error "ib_insync components are unavailable in the current environment.")
      else if is_empty settings.ibkr_host || settings.ibkr_port == 0
      then raise (
          Error.configuration_error
            "IBKR connection settings are required for live portfolio access.")
      else modify ext.ib.create
        >> try_finally
            (try_except (read_account settings ext) (λ exc.
              raise
                (Error.execution_error "Unable to retrieve live portfolio snapshot from IBKR.")))
            (release ext.ib)

  unfoldable pub get_portfolio_snapshot :
      Settings F → External F W → Bool → Action W (PortfolioSnapshot F)
  unfolding build_paper_snapshot build_live_snapshot
  get_portfolio_snapshot settings ext use_live_data =
      if not use_live_data
      then build_paper_snapshot settings ext
      else build_live_snapshot settings ext
