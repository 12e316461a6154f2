-- ===== src/Security/Base64/RoundTrip.antt =====
-- Decoding what was encoded.
use day_trade_intellegence.Prelude.{
  All, List, [], arith, length, refl, some, suc, zero, ℕ, ◌%◌, ◌*◌, ◌++◌, ◌+◌, ◌/◌, ◌<◌, ◌∷◌, ◌≡◌,
}
use day_trade_intellegence.Security.Base64.{
  IsByte, Quad, a2b_base64, b64url_decode, b64url_encode, emit, next_quad, padding, strip_cons,
  symbol,
}
use day_trade_intellegence.Security.Base64.Symbol.{bits-symbol, symbol_no_pad}

strip_cons-symbol : (v : ℕ) (s : List ℕ) → v < 64 → strip_cons (symbol v) s ≡ symbol v ∷ s
unfolding strip_cons
strip_cons-symbol v [] h = rw (symbol_no_pad v h) refl
strip_cons-symbol v (c ∷ s) h = refl

-- The code of one byte, of two, and of three and more.
pub b64url_encode-one :
    (a : ℕ) → a < 256 → b64url_encode (a ∷ []) ≡ symbol (a / 4) ∷ symbol (a % 4 * 16) ∷ []
unfolding b64url_encode
b64url_encode-one a h =
    rw
      (
        strip_cons-symbol (a % 4 * 16) [] (omega arith),
        strip_cons-symbol (a / 4) (symbol (a % 4 * 16) ∷ []) (omega (arith, h)),
      )
      refl

pub b64url_encode-two :
    (a b : ℕ)
    → a < 256
    → b < 256
    → b64url_encode (a ∷ b ∷ [])
      ≡ symbol (a / 4) ∷ symbol (a % 4 * 16 + b / 16) ∷ symbol (b % 16 * 4) ∷ []
unfolding b64url_encode
b64url_encode-two a b h k = rw (strip_cons-symbol (b % 16 * 4) [] (omega arith)) refl

pub b64url_encode-three :
    (a b c : ℕ) (rest : List ℕ)
    → a < 256
    → b < 256
    → c < 256
    → b64url_encode (a ∷ b ∷ c ∷ rest)
      ≡ symbol (a / 4)
        ∷ symbol (a % 4 * 16 + b / 16)
        ∷ symbol (b % 16 * 4 + c / 64)
        ∷ symbol (c % 64)
        ∷ b64url_encode rest
unfolding b64url_encode
b64url_encode-three a b c rest h k l = rw (strip_cons-symbol (c % 64) _ (omega arith)) refl

a2b_base64-symbol :
    (q : Quad) (pads v : ℕ) (s : List ℕ)
    → v < 64
    → a2b_base64 q pads (symbol v ∷ s) ≡ emit q v (a2b_base64 (next_quad q v) 0 s)
unfolding a2b_base64
a2b_base64-symbol q pads v s h = rw (a2b_base64, symbol_no_pad v h, bits-symbol v h) refl

-- `text`, decoded from the start of a group, gives `bytes`.
abbrev Decodes : List ℕ → List ℕ → Type 0
Decodes text bytes = (pads : ℕ) → a2b_base64 Quad.q0 pads text ≡ some bytes

-- The bytes that the groups of symbols complete.
one_byte : (a : ℕ) → a / 4 * 4 + a % 4 * 16 / 16 ≡ a
one_byte a = omega arith

first_byte : (a b : ℕ) → b < 256 → a / 4 * 4 + (a % 4 * 16 + b / 16) / 16 ≡ a
first_byte a b h = omega (arith, h)

second_byte :
    (a b c : ℕ)
    → b < 256
    → c < 256
    → (a % 4 * 16 + b / 16) % 16 * 16 + (b % 16 * 4 + c / 64) / 4 ≡ b
second_byte a b c h k = omega (arith, h, k)

last_of_two : (a b : ℕ) → b < 256 → (a % 4 * 16 + b / 16) % 16 * 16 + b % 16 * 4 / 4 ≡ b
last_of_two a b h = omega (arith, h)

third_byte : (b c : ℕ) → c < 256 → (b % 16 * 4 + c / 64) % 4 * 64 + c % 64 ≡ c
third_byte b c h = omega (arith, h)

decode_one :
    (a : ℕ) → a < 256 → Decodes (symbol (a / 4) ∷ symbol (a % 4 * 16) ∷ b'=' ∷ b'=' ∷ []) (a ∷ [])
unfolding a2b_base64
decode_one a h pads =
    rw
      (
        a2b_base64-symbol Quad.q0 pads (a / 4) _ (omega (arith, h)),
        a2b_base64-symbol (Quad.q1 (a / 4)) 0 (a % 4 * 16) _ (omega arith),
        one_byte a,
      )
      refl

decode_two :
    (a b : ℕ)
    → a < 256
    → b < 256
    → Decodes
        (symbol (a / 4) ∷ symbol (a % 4 * 16 + b / 16) ∷ symbol (b % 16 * 4) ∷ b'=' ∷ [])
        (a ∷ b ∷ [])
unfolding a2b_base64
decode_two a b h k pads =
    rw
      (
        a2b_base64-symbol Quad.q0 pads (a / 4) _ (omega (arith, h)),
        a2b_base64-symbol (Quad.q1 (a / 4)) 0 (a % 4 * 16 + b / 16) _ (omega (arith, k)),
        a2b_base64-symbol (Quad.q2 ((a % 4 * 16 + b / 16) % 16)) 0 (b % 16 * 4) _ (omega arith),
        first_byte a b k,
        last_of_two a b k,
      )
      refl

decode_three :
    (a b c : ℕ) (text rest : List ℕ)
    → a < 256
    → b < 256
    → c < 256
    → Decodes text rest
    → Decodes
        (symbol (a / 4)
          ∷ symbol (a % 4 * 16 + b / 16)
          ∷ symbol (b % 16 * 4 + c / 64)
          ∷ symbol (c % 64)
          ∷ text)
        (a ∷ b ∷ c ∷ rest)
decode_three a b c text rest h k l decodes pads =
    rw
      (
        a2b_base64-symbol Quad.q0 pads (a / 4) _ (omega (arith, h)),
        a2b_base64-symbol (Quad.q1 (a / 4)) 0 (a % 4 * 16 + b / 16) _ (omega (arith, k)),
        a2b_base64-symbol (Quad.q2 ((a % 4 * 16 + b / 16) % 16)) 0 (b % 16 * 4 + c / 64) _
            (omega (arith, l)),
        a2b_base64-symbol (Quad.q3 ((b % 16 * 4 + c / 64) % 4)) 0 (c % 64) _ (omega arith),
        decodes 0,
        first_byte a b k,
        second_byte a b c k l,
        third_byte b c l,
      )
      refl

four_more : (n : ℕ) → padding (suc (suc (suc (suc n)))) ≡ padding n
unfolding padding
four_more n = let same : suc (suc (suc (suc n))) % 4 ≡ n % 4 = omega arith in rw same refl

padding_two : padding (suc (suc zero)) ≡ b'=' ∷ b'=' ∷ []
unfolding padding
padding_two = refl

padding_three : padding (suc (suc (suc zero))) ≡ b'=' ∷ []
unfolding padding
padding_three = refl

nothing_Decodes : Decodes (b64url_encode [] ++ padding (length (b64url_encode []))) []
unfolding b64url_encode padding a2b_base64
nothing_Decodes pads = refl

encoded_Decodes :
    (bytes : List ℕ)
    → All IsByte bytes
    → Decodes (b64url_encode bytes ++ padding (length (b64url_encode bytes))) bytes
encoded_Decodes [] all = nothing_Decodes
encoded_Decodes (a ∷ []) (h, t) = rw (b64url_encode-one a h, padding_two) (decode_one a h)
encoded_Decodes (a ∷ b ∷ []) (h, (k, t)) =
    rw (b64url_encode-two a b h k, padding_three) (decode_two a b h k)
encoded_Decodes (a ∷ b ∷ c ∷ rest) (h, (k, (l, all))) =
    rw (b64url_encode-three a b c rest h k l, four_more (length (b64url_encode rest)))
      (decode_three a b c _ rest h k l (encoded_Decodes rest all))

-- Decoding what was encoded gives the bytes back, for any list of bytes.
pub b64url_decode-encode :
    (bytes : List ℕ) → All IsByte bytes → b64url_decode (b64url_encode bytes) ≡ some bytes
unfolding b64url_decode
b64url_decode-encode bytes all = encoded_Decodes bytes all 0
