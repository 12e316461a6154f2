-- ===== src/Orchestrator/Sources.antt =====
-- Where the account and the bars come from on which `approve` decides: the world in which it runs.
use mathlib.Core.Path.{subst}
use day_trade_intellegence.Core.Action.{err, gets, lift, modify, ok, pure, raise, try_finally}
use day_trade_intellegence.Core.Action.Recover.{bind_returned, ok_injective, try_returned}
use day_trade_intellegence.Core.Errors.{Error}
use day_trade_intellegence.Core.Float.{Float, nought}
use day_trade_intellegence.Core.Settings.{Settings}
use day_trade_intellegence.Domain.Portfolio.{PortfolioSnapshot}
use day_trade_intellegence.Domain.Trading.{MarketBar}
use day_trade_intellegence.External.{External}
use day_trade_intellegence.Prelude.{
  Bool-cases, List, Option, Option-cases, String, ap, false, inl, inr, is_empty, none, not, refl,
  some, sym, true, ℕ, ◌==◌, ◌||◌, ◌∙◌, ◌≡◌, ◌⊎◌,
}
use day_trade_intellegence.Services.Endings.{HasDrawdown}
use day_trade_intellegence.Services.Market.{
  bars_or_empty, build_synthetic_bars, get_recent_bars, is_local_mode,
}
use day_trade_intellegence.Services.Portfolio.{
  account_value, build_live_snapshot, dict_get, drawdown, get_portfolio_snapshot, read_account,
}
use day_trade_intellegence.Services.Portfolio.Tags.{
  Got, IsAbsent, IsLast, dict_get-Got, dict_get-last, dict_get-none,
}

module _ {F : Type 0} ⦃fl : Float F⦄ where
  -- A number of an account summary: that of the last pair with the tag, and 0 where there is none.
  abbrev pub HasValue : String → List (String × String) → F → Type 0
  HasValue tag values x =
      (IsAbsent tag values × (x ≡ nought))
      ⊎ ((text : String) × IsLast tag values text × (fl.parse text ≡ some x))

  account_value-HasValue :
      (tag : String) (values : List (String × String)) (x : F)
      → account_value tag values ≡ ok x
      → HasValue tag values x
  unfolding account_value
  account_value-HasValue tag values x h = elim (Option-cases (dict_get tag values)) [
    | inl e ↦ inl (
      subst (Got tag values) e (dict_get-Got tag values),
      sym (ok_injective (rw (e, account_value) at h)),
    )
    | inr (text, e) ↦ inr (
      text,
      subst (Got tag values) e (dict_get-Got tag values),
      parsed (fl.parse text) (rw (e, account_value) at h),
    )
  ]
    where
      parsed :
          (r : Option F)
          → elim r [
            | none ↦ err (Error.other "ValueError" "could not convert string to float")
            | some y ↦ ok y
          ]
            ≡ ok x
          → r ≡ some x
      parsed none h = cc
      parsed (some y) h = cc

  -- The number as a dictionary of the pairs gives it.
  abbrev Read : String → List (String × String) → F → Type 0
  Read tag values x =
      ((dict_get tag values ≡ none) × (x ≡ nought))
      ⊎ ((text : String) × (dict_get tag values ≡ some text) × (fl.parse text ≡ some x))

  HasValue-Read :
      (tag : String) (values : List (String × String)) (x : F)
      → HasValue tag values x
      → Read tag values x
  HasValue-Read tag values x (inl (absent, e)) = inl (dict_get-none tag values absent, e)
  HasValue-Read tag values x (inr (text, (front, (back, e, absent)), p)) =
      inr (text, ap (dict_get tag) e ∙ dict_get-last tag text front back absent, p)

  Read-unique :
      (tag : String) (values : List (String × String)) (x y : F)
      → Read tag values x
      → Read tag values y
      → x ≡ y
  Read-unique tag values x y (inl (e, p)) (inl (f, q)) = cc
  Read-unique tag values x y (inl (e, p)) (inr (t, f, q)) = cc
  Read-unique tag values x y (inr (t, e, p)) (inl (f, q)) = cc
  Read-unique tag values x y (inr (t, e, p)) (inr (u, f, q)) = cc

  pub HasValue-unique :
      (tag : String) (values : List (String × String)) (x y : F)
      → HasValue tag values x
      → HasValue tag values y
      → x ≡ y
  HasValue-unique tag values x y p q =
      Read-unique tag values x y (HasValue-Read tag values x p) (HasValue-Read tag values y q)

module _ {F W : Type 0} ⦃fl : Float F⦄ (settings : Settings F) (ext : External F W) where
  -- The world after a new broker client was connected.
  abbrev pub connected : W → W
  connected w =
      (ext.ib.connect settings.ibkr_host settings.ibkr_port settings.ibkr_client_id
        (ext.ib.create w)).1

  -- What the broker answers about the account gives this equity.
  abbrev pub HasEquity : W → F → Type 0
  HasEquity w equity =
      (values : List (String × String)) × ((ext.ib.account_summary (connected w)).0 ≡ ok values)
      × HasValue "NetLiquidation" values equity

  pub HasEquity-unique : (w : W) (x y : F) → HasEquity w x → HasEquity w y → x ≡ y
  HasEquity-unique w x y (values, e, p) (others, f, q) =
      let same : others ≡ values = ok_injective (sym f ∙ e) in
      HasValue-unique "NetLiquidation" values x y p
        (subst (λ v. HasValue "NetLiquidation" v y) same q)

  -- A snapshot of the account that the broker reports.
  abbrev pub IsReported : W → PortfolioSnapshot F → Type 0
  IsReported w s = HasEquity w s.net_liquidation × HasDrawdown settings s

  -- The bars of a symbol, as many as `limit`: what the market answers, or without credentials, in local
  -- mode, the synthetic ones.
  abbrev pub IsMarketData : String → ℕ → W → List (MarketBar F) → Type 0
  IsMarketData symbol limit w bars =
      let missing = is_empty settings.alpaca_api_key || is_empty settings.alpaca_secret_key in
      ((missing ≡ true)
        × (is_local_mode settings.environment ≡ true)
        × ((build_synthetic_bars ext.python symbol limit w).0 ≡ ok bars))
      ⊎ ((missing ≡ false)
          × ((response : Option (List (MarketBar F))) × ((ext.alpaca.get_stock_bars
                  settings.alpaca_api_key settings.alpaca_secret_key symbol limit
                  settings.alpaca_data_feed w).0
                ≡ ok response)
              × (bars ≡ bars_or_empty response)))

  read_account-IsReported :
      (w : W) (s : PortfolioSnapshot F)
      → (read_account settings ext (ext.ib.create w)).0 ≡ ok s
      → IsReported w s
  unfolding read_account drawdown lift gets pure
  read_account-IsReported w s h =
      let (u, connects, h1) = bind_returned _ _ _ h in
      let (values, answered, h2) = bind_returned _ _ _ h1 in
      let (positions, listed, h3) = bind_returned _ _ _ h2 in
      let (net, n, h4) = bind_returned _ _ _ h3 in
      let (funds, m, h5) = bind_returned _ _ _ h4 in
      let (power, p, h6) = bind_returned _ _ _ h5 in
      let (as_of, t, h7) = bind_returned _ _ _ h6 in
      subst (IsReported w) (ok_injective h7)
        ((values, answered, account_value-HasValue "NetLiquidation" values net n), refl)

  pub get_portfolio_snapshot-IsReported :
      (w : W) (s : PortfolioSnapshot F)
      → (get_portfolio_snapshot settings ext true w).0 ≡ ok s
      → IsReported w s
  unfolding get_portfolio_snapshot build_live_snapshot try_finally modify raise
  get_portfolio_snapshot-IsReported w s h = elim (Bool-cases (not ext.ib.available)) [
    | inl missing ↦ cc (rw missing at h)
    | inr available ↦ elim (Bool-cases (is_empty settings.ibkr_host || settings.ibkr_port == 0)) [
      | inl missing ↦ cc (rw (available, missing) at h)
      | inr given ↦
          let (u, created, h1) = bind_returned _ _ _ (rw (available, given) at h) in
          read_account-IsReported w s (try_returned _ _ _ h1)
    ]
  ]

  pub get_recent_bars-IsMarketData :
      (symbol timeframe : String) (limit : ℕ) (w : W) (bars : List (MarketBar F))
      → (get_recent_bars settings ext symbol timeframe limit w).0 ≡ ok bars
      → IsMarketData symbol limit w bars
  unfolding get_recent_bars pure raise
  get_recent_bars-IsMarketData symbol timeframe limit w bars h =
      elim (Bool-cases (is_empty settings.alpaca_api_key || is_empty settings.alpaca_secret_key)) [
        | inl missing ↦ elim (Bool-cases (is_local_mode settings.environment)) [
          | inl offline ↦ inl (missing, offline, rw (missing, offline) at h)
          | inr remote ↦ cc (rw (missing, remote) at h)
        ]
        | inr given ↦ elim (Bool-cases (not ext.alpaca.available)) [
          | inl missing ↦ cc (rw (given, missing) at h)
          | inr available ↦
              let h1 = try_returned _ _ _ (rw (given, available) at h) in
              let (response, answered, h2) = bind_returned _ _ _ h1 in
              inr (given, (response, answered, sym (ok_injective h2)))
        ]
      ]
