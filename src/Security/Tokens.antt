-- ===== src/Security/Tokens.antt =====
-- `TokenManager` of app/security/tokens.py.
pub mod Authenticity
use day_trade_intellegence.Core.Settings.{Settings}
use day_trade_intellegence.Prelude.{
  List, Option, String, [], codes, if◌then◌else◌, ltb, none, not, same_codes, some, ℕ, ◌*◌, ◌++◌,
  ◌+◌, ◌∷◌,
}
use day_trade_intellegence.Security.Base64.{b64url_decode, b64url_encode}
use day_trade_intellegence.Security.Crypto.{Claims, Crypto}
use day_trade_intellegence.Security.Split.{split}

module _ {F W : Type 0} (crypto : Crypto W) (settings : Settings F) where
  -- The signature of a header and a payload, both encoded.
  unfoldable pub signature : List ℕ → List ℕ → List ℕ
  unfolding b64url_encode
  signature header_part payload_part =
      b64url_encode
        (crypto.hmac_sha256 settings.auth_secret_key (header_part ++ b'.' ∷ payload_part))

  -- `now` is the time in seconds. The token, and the seconds that it is good for.
  unfoldable pub create_access_token : ℕ → String → String → List ℕ × ℕ
  unfolding b64url_encode signature
  create_access_token now subject role =
      let exp = now + settings.auth_token_exp_minutes * 60 in
      let header_part = b64url_encode (codes "{\"alg\":\"HS256\",\"typ\":\"JWT\"}") in
      let payload_part = b64url_encode (crypto.dumps subject role exp) in
      (
        header_part ++ b'.' ∷ (payload_part ++ b'.' ∷ signature header_part payload_part),
        settings.auth_token_exp_minutes * 60,
      )

  -- `json.loads` of the bytes that were decoded
  unfoldable pub loads_bytes : Option (List ℕ) → Option Claims
  loads_bytes none = none
  loads_bytes (some bytes) = crypto.loads bytes

  -- Claims that have expired give `None`.
  unfoldable pub unless_expired : ℕ → Option Claims → Option Claims
  unless_expired now none = none
  unless_expired now (some claims) = if ltb claims.exp now then none else some claims

  unfoldable pub read_payload : ℕ → List ℕ → Option Claims
  unfolding b64url_decode loads_bytes unless_expired
  read_payload now payload_part = unless_expired now (loads_bytes (b64url_decode payload_part))

  unfoldable pub decode_parts : ℕ → List (List ℕ) → Option Claims
  unfolding signature read_payload
  decode_parts now (header_part ∷ payload_part ∷ signature_part ∷ []) =
      if not (same_codes (signature header_part payload_part) signature_part)
      then none
      else read_payload now payload_part
  decode_parts now _ = none

  -- `none` is `None`, an exception of any step included.
  unfoldable pub decode_access_token : ℕ → List ℕ → Option Claims
  unfolding split decode_parts
  decode_access_token now token = decode_parts now (split b'.' token)
