-- ===== src/Services/Portfolio/Drawdown.antt =====
-- The drawdown of a live account.
use day_trade_intellegence.Core.Float.{max, Float, IsOrdered, max, nought, one}
use day_trade_intellegence.Prelude.{false, refl, true, ◌≡◌}
use day_trade_intellegence.Services.Portfolio.{drawdown}

module _ {F : Type 0} ⦃fl : Float F⦄ (laws : IsOrdered fl) where
  -- Equity of zero or less, against a positive paper equity, is a drawdown of at least 1.
  pub drawdown-ge_one :
      (net paper : F)
      → fl.le net nought ≡ true
      → fl.lt nought paper ≡ true
      → fl.is_finite paper ≡ true
      → fl.le one (drawdown net paper) ≡ true
  unfolding drawdown
  drawdown-ge_one net paper n p f =
      let below : fl.lt net paper ≡ true = laws.lt_of_le_lt _ _ _ n p in
      let high : fl.le one (fl.div (fl.sub paper net) paper) ≡ true =
        laws.div-ge_one _ _ f p (laws.sub-le _ _ f n) in
      let kept : fl.lt (fl.div (fl.sub paper net) paper) nought ≡ false =
        laws.le-not_lt _ _ (laws.le_trans _ _ _ laws.le-zero_one high) in
      let top : max net paper ≡ paper = rw (below, max) refl in
      let whole : max (fl.div (fl.sub paper net) paper) nought ≡ fl.div (fl.sub paper net) paper =
        rw (kept, max) refl in
      rw (top, laws.lt-eq _ _ p, whole) high
