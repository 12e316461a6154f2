-- ===== src/Services/Market.antt =====
-- app/services/market_data_service.py. Times are seconds since 1970, far above any `limit` minutes.
pub mod Synthetic
use day_trade_intellegence.Prelude.{
  ◌||◌, ℕ, zero, suc, ◌+◌, ◌-◌, ◌*◌, ◌%◌, String, Bool, not, Option, none, some, List, [], ◌∷◌,
  if◌then◌else◌, fmt, codes, is_empty, lower_is,
}
use day_trade_intellegence.Core.Errors.{Error}
use day_trade_intellegence.Core.Action.{◌>>=◌, ok, Action, pure, raise, try_except}
use day_trade_intellegence.Core.Float.{Float}
use day_trade_intellegence.Core.Settings.{Settings}
use day_trade_intellegence.Domain.Trading.{MarketBar}
use day_trade_intellegence.External.{External, Runtime}

abbrev pub sum_codes : List ℕ → ℕ
sum_codes [] = 0
sum_codes (c ∷ s) = c + sum_codes s

-- `settings.environment.lower() in {"development", "local"}`
unfoldable pub is_local_mode : String → Bool
unfolding lower_is
is_local_mode environment = lower_is environment "development" || lower_is environment "local"

-- `response.data.get(symbol, [])`
abbrev pub bars_or_empty : {F : Type 0} → Option (List (MarketBar F)) → List (MarketBar F)
bars_or_empty none = []
bars_or_empty (some bars) = bars

module _ {F W : Type 0} ⦃fl : Float F⦄ where
  -- the bars from `index` on, with `left` of them to go
  unfoldable pub bars_from : Runtime W → F → ℕ → ℕ → ℕ → List (MarketBar F)
  bars_from python base_price start index zero = []
  bars_from python base_price start index (suc left) =
      record {
        close = fl.round (fl.add base_price (fl.mul (fl.of_int index) (fl.lit 6 1))) 2;
        timestamp = python.isoformat (start + index * 60);
      }
      ∷ bars_from python base_price start (index + 1) left

  unfoldable pub build_synthetic_bars : Runtime W → String → ℕ → Action W (List (MarketBar F))
  unfolding bars_from
  build_synthetic_bars python symbol limit w =
      let base_price =
        fl.add (fl.lit 1000 1) (fl.of_int (sum_codes (codes (python.upper symbol)) % 20)) in
      let start = python.now w - (limit - 1) * 60 in
      (ok (bars_from python base_price start 0 limit), w)

  unfoldable pub get_recent_bars :
      Settings F → External F W → String → String → ℕ → Action W (List (MarketBar F))
  unfolding is_local_mode build_synthetic_bars
  get_recent_bars settings ext symbol timeframe limit =
      if is_empty settings.alpaca_api_key || is_empty settings.alpaca_secret_key
      then (if is_local_mode settings.environment
          then build_synthetic_bars ext.python symbol limit
          else raise (
              Error.configuration_error
                "Alpaca API credentials are required for market data access."))
      else if not ext.alpaca.available
      then raise (
          Error.market_data_error
            "alpaca-py components are unavailable in the current environment.")
      else try_except
          (do
            response ←
                ext.alpaca.get_stock_bars settings.alpaca_api_key settings.alpaca_secret_key symbol
                  limit settings.alpaca_data_feed
            pure (bars_or_empty response))
          (λ exc. raise (
            Error.market_data_error
              (fmt ("Unable to retrieve market data for " ∷ symbol ∷ "." ∷ []))))
