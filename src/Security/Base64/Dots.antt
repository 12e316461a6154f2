-- ===== src/Security/Base64/Dots.antt =====
-- The code points of an encoded text, for the splitting of a token.
use day_trade_intellegence.Prelude.{
  All, Bool, List, [], arith, ltb, refl, true, ℕ, ◌%◌, ◌&&◌, ◌*◌, ◌+◌, ◌/◌, ◌<◌, ◌∷◌, ◌≡◌, ◌≢◌,
}
use day_trade_intellegence.Security.Base64.{IsByte, b64url_encode, symbol}
use day_trade_intellegence.Security.Base64.RoundTrip.{
  b64url_encode-one, b64url_encode-three, b64url_encode-two,
}
use day_trade_intellegence.Security.Base64.Symbol.{symbol_no_dot}
use day_trade_intellegence.Security.Split.{Lacks}

b64url_encode-nil : b64url_encode [] ≡ []
unfolding b64url_encode
b64url_encode-nil = refl

-- What holds of each symbol of the alphabet holds of each code point of an encoded text.
pub b64url_encode-All :
    (P : ℕ → Type 0)
    → ((v : ℕ) → v < 64 → P (symbol v))
    → (bytes : List ℕ) → All IsByte bytes
    → All P (b64url_encode bytes)
b64url_encode-All P each [] all = rw b64url_encode-nil tt
b64url_encode-All P each (a ∷ []) (h, t) =
    rw (b64url_encode-one a h)
      (each (a / 4) (omega (arith, h)), (each (a % 4 * 16) (omega arith), tt))
b64url_encode-All P each (a ∷ b ∷ []) (h, (k, t)) = rw (b64url_encode-two a b h k) (
  each (a / 4) (omega (arith, h)),
  (each (a % 4 * 16 + b / 16) (omega (arith, k)), (each (b % 16 * 4) (omega arith), tt)),
)
b64url_encode-All P each (a ∷ b ∷ c ∷ rest) (h, (k, (l, all))) =
    rw (b64url_encode-three a b c rest h k l) (
      each (a / 4) (omega (arith, h)),
      (
        each (a % 4 * 16 + b / 16) (omega (arith, k)),
        (
          each (b % 16 * 4 + c / 64) (omega (arith, l)),
          (each (c % 64) (omega arith), b64url_encode-All P each rest all),
        ),
      ),
    )

-- No symbol of an encoded text is a dot.
pub b64url_encode-Lacks : (bytes : List ℕ) → All IsByte bytes → Lacks b'.' (b64url_encode bytes)
b64url_encode-Lacks = b64url_encode-All (λ c. c ≢ b'.') symbol_no_dot

abbrev all_bytes : List ℕ → Bool
all_bytes [] = true
all_bytes (c ∷ s) = ltb c 256 && all_bytes s

pub all_bytes_sound : (s : List ℕ) → all_bytes s ≡ true → All IsByte s
all_bytes_sound [] h = tt
all_bytes_sound (c ∷ s) h = (ground arith, all_bytes_sound s (ground arith))
