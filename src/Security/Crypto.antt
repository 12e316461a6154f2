-- ===== src/Security/Crypto.antt =====
-- The parts of Python's standard library whose results the tokens and passwords only pass on:
-- `secrets`, `hashlib`, `hmac` and `json`.
use day_trade_intellegence.Prelude.{All, List, Option, String, some, ℕ, ◌≡◌}
use day_trade_intellegence.Security.Base64.{IsByte}
use day_trade_intellegence.Security.Split.{Lacks}

-- What a token says, as the code reads it: `sub` if there is one, which is a text, and `exp`, which is
-- 0 where it is missing.
pub record Claims : Type 0 where
  pub sub : Option String
  pub role : String
  pub exp : ℕ

pub record Crypto (W : Type 0) : Type 0 where
  -- `secrets.token_hex(16)`
  pub token_hex : W → List ℕ × W
  -- `hashlib.pbkdf2_hmac("sha256", password, salt, 150000).hex()`
  pub pbkdf2_hex : String → List ℕ → List ℕ
  -- `hmac.new(key, message, hashlib.sha256).digest()`
  pub hmac_sha256 : String → List ℕ → List ℕ
  -- `json.dumps({"sub": …, "role": …, "exp": …}, separators=(",", ":")).encode("utf-8")`
  pub dumps : String → String → ℕ → List ℕ
  -- `json.loads(bytes.decode("utf-8"))`; `none` is any exception up to the reading of `exp`
  pub loads : List ℕ → Option Claims

-- Digests and encoded texts are bytes, JSON comes back as it was, and hexadecimal has no `$`.
pub record IsCrypto {W : Type 0} (crypto : Crypto W) : Type 0 where
  pub digest : (key : String) (text : List ℕ) → All IsByte (crypto.hmac_sha256 key text)
  pub dumped : (sub role : String) (exp : ℕ) → All IsByte (crypto.dumps sub role exp)
  pub loads-dumps :
      (sub role : String) (exp : ℕ)
      → crypto.loads (crypto.dumps sub role exp)
        ≡ some (record { sub = some sub; role = role; exp = exp })
  pub salt : (w : W) → Lacks b'$' (crypto.token_hex w).0
