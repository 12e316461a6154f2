-- ===== src/Security/Base64/Symbol.antt =====
-- The alphabet.
use day_trade_intellegence.Prelude.{arith, false, some, ℕ, ◌<◌, ◌==◌, ◌≡◌, ◌≢◌}
use day_trade_intellegence.Security.Base64.{bits, symbol}

module _ (v : ℕ) (h : v < 64) where
  pub bits-symbol : bits (symbol v) ≡ some v
  unfolding bits symbol
  bits-symbol = ground arith

  pub symbol_no_pad : (symbol v == b'=') ≡ false
  unfolding symbol
  symbol_no_pad = ground arith

  pub symbol_no_dot : symbol v ≢ b'.'
  unfolding symbol
  symbol_no_dot = ground arith
