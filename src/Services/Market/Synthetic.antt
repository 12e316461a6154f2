-- ===== src/Services/Market/Synthetic.antt =====
-- Market data without Alpaca credentials.
use day_trade_intellegence.Core.Action.{err, ok, raise}
use day_trade_intellegence.Core.Errors.{Error}
use day_trade_intellegence.Core.Float.{Float}
use day_trade_intellegence.Core.Settings.{Settings}
use day_trade_intellegence.Domain.Trading.{MarketBar}
use day_trade_intellegence.External.{External, Runtime}
use day_trade_intellegence.Prelude.{
  Bool-cases, List, String, ap, arith, false, inl, inr, is_empty, length, refl, suc, true, zero, ℕ,
  ◌+◌, ◌||◌, ◌≡◌,
}
use day_trade_intellegence.Services.Market.{
  bars_from, build_synthetic_bars, get_recent_bars, is_local_mode,
}

module _ {F W : Type 0} ⦃fl : Float F⦄ where
  length-bars_from :
      (python : Runtime W) (base start : _) (index left : ℕ)
      → length (bars_from {F = F} python base start index left) ≡ left
  unfolding bars_from
  length-bars_from python base start index zero = refl
  length-bars_from python base start index (suc left) =
      omega (arith, length-bars_from python base start (index + 1) left)

  build_synthetic_bars_lem :
      (python : Runtime W) (symbol : String) (limit : ℕ) (w : W)
      → (bars : List (MarketBar F)) × (build_synthetic_bars python symbol limit w ≡ (ok bars, w))
        × (length bars ≡ limit)
  unfolding build_synthetic_bars
  build_synthetic_bars_lem python symbol limit w = (_, refl, length-bars_from python _ _ 0 limit)

module _ {F W : Type 0} ⦃fl : Float F⦄ (settings : Settings F) (ext : External F W) where
  -- Without credentials, a development or local environment gets exactly as many bars as it asks for,
  -- and any other environment a `ConfigurationError`; neither calls Alpaca or changes anything.
  pub get_recent_bars_offline :
      (symbol timeframe : String) (limit : ℕ) (w : W)
      → (is_empty settings.alpaca_api_key || is_empty settings.alpaca_secret_key) ≡ true
      → ((get_recent_bars settings ext symbol timeframe limit w).1 ≡ w)
        × (is_local_mode settings.environment ≡ true
            → (bars : List (MarketBar F)) × ((get_recent_bars settings ext symbol timeframe limit
                  w).0
                ≡ ok bars)
              × (length bars ≡ limit))
        × (is_local_mode settings.environment ≡ false
            → (m : String) × ((get_recent_bars settings ext symbol timeframe limit w).0
                ≡ err (Error.configuration_error m)))
  unfolding get_recent_bars raise
  get_recent_bars_offline symbol timeframe limit w offline =
      let (bars, answer, enough) = build_synthetic_bars_lem ext.python symbol limit w in
      (
        elim (Bool-cases (is_local_mode settings.environment)) [
          | inl e ↦ rw (offline, e) (ap (λ r. r.1) answer)
          | inr e ↦ rw (offline, e) refl
        ],
        λ e. (bars, rw (offline, e) (ap (λ r. r.0) answer), enough),
        λ e. ("Alpaca API credentials are required for market data access.", rw (offline, e) refl),
      )
