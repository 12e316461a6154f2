-- ===== src/Security/Access/Bearer.antt =====
-- The token of an `Authorization` header that was made from a token.
use day_trade_intellegence.Core.Settings.{Settings}
use day_trade_intellegence.Prelude.{
  All, Bool, List, Option, String, [], arith, codes, false, refl, some, true, ℕ, ◌*◌, ◌++◌, ◌+◌,
  ◌<◌, ◌==◌, ◌∷◌, ◌≡◌,
}
use day_trade_intellegence.Security.Access.{
  bearer_token, is_space, remove_prefix, strip_left, strip_right,
}
use day_trade_intellegence.Security.Base64.{b64url_encode, symbol}
use day_trade_intellegence.Security.Base64.Dots.{all_bytes_sound, b64url_encode-All}
use day_trade_intellegence.Security.Crypto.{Crypto, IsCrypto}
use day_trade_intellegence.Security.Tokens.{create_access_token, signature}

-- No code point is white space.
abbrev Unspaced : List ℕ → Type 0
Unspaced s = All (λ c. is_space c ≡ false) s

append-Unspaced : (s t : List ℕ) → Unspaced s → Unspaced t → Unspaced (s ++ t)
append-Unspaced [] t h k = k
append-Unspaced (c ∷ s) t (p, h) k = (p, append-Unspaced s t h k)

strip_left_lem : (s : List ℕ) → Unspaced s → strip_left s ≡ s
unfolding strip_left
strip_left_lem [] h = refl
strip_left_lem (c ∷ s) (p, h) = rw (p, strip_left) refl

kept_space : {A : Type 0} (b : Bool) (x y : A) → b ≡ false → (elim b [ true ↦ x | false ↦ y ]) ≡ y
kept_space true x y e = cc
kept_space false x y e = refl

strip_right_lem : (s : List ℕ) → Unspaced s → strip_right s ≡ s
unfolding strip_right
strip_right_lem [] h = refl
strip_right_lem (c ∷ []) (p, h) = kept_space (is_space c) [] (c ∷ []) p
strip_right_lem (c ∷ d ∷ s) (p, h) = rw (strip_right_lem (d ∷ s) h) refl

remove_prefix_lem : (p s : List ℕ) → remove_prefix p (p ++ s) ≡ some s
unfolding remove_prefix
remove_prefix_lem [] s = refl
remove_prefix_lem (c ∷ p) s =
    let same : (c == c) ≡ true = ground arith in rw (same, remove_prefix) (remove_prefix_lem p s)

-- `Authorization: Bearer <token>`
abbrev pub bearer : List ℕ → Option (List ℕ)
bearer token = some (codes "Bearer " ++ token)

bearer_token_lem : (token : List ℕ) → Unspaced token → bearer_token (bearer token) ≡ some token
unfolding bearer_token
bearer_token_lem token h =
    rw (remove_prefix_lem (codes "Bearer ") token, strip_left_lem token h, strip_right_lem token h)
      refl

symbol_no_space : (v : ℕ) → v < 64 → is_space (symbol v) ≡ false
unfolding symbol is_space
symbol_no_space v h = ground arith

pub bearer_token-create :
    {F W : Type 0} (crypto : Crypto W) (settings : Settings F)
    → IsCrypto crypto
    → (now : ℕ) (subject role : String)
    → bearer_token (bearer (create_access_token crypto settings now subject role).0)
      ≡ some (create_access_token crypto settings now subject role).0
unfolding create_access_token signature is_space
bearer_token-create crypto settings laws now subject role =
    let exp = now + settings.auth_token_exp_minutes * 60 in
    let header = codes "{\"alg\":\"HS256\",\"typ\":\"JWT\"}" in
    let bytes = crypto.dumps subject role exp in
    let unspaced = b64url_encode-All (λ c. is_space c ≡ false) symbol_no_space in
    let header_part = b64url_encode header in
    let payload_part = b64url_encode bytes in
    let signed = signature crypto settings header_part payload_part in
    bearer_token_lem (header_part ++ b'.' ∷ (payload_part ++ b'.' ∷ signed)) (
      append-Unspaced header_part (b'.' ∷ (payload_part ++ b'.' ∷ signed))
        (unspaced header (all_bytes_sound header refl))
        (
          refl,
          append-Unspaced payload_part (b'.' ∷ signed)
              (unspaced bytes (laws.dumped subject role exp))
              (refl, unspaced _ (laws.digest settings.auth_secret_key _)),
        ))
