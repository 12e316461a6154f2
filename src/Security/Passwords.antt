-- ===== src/Security/Passwords.antt =====
-- `PasswordManager` of app/security/tokens.py.
pub mod Verification
use day_trade_intellegence.Prelude.{
  Bool, List, Option, String, false, none, same_codes, some, ℕ, ◌++◌, ◌∷◌,
}
use day_trade_intellegence.Security.Crypto.{Crypto}
use day_trade_intellegence.Security.Split.{split_once}

module _ {W : Type 0} (crypto : Crypto W) where
  unfoldable pub hash_password : String → W → List ℕ × W
  hash_password password w =
      let (salt, w') = crypto.token_hex w in (salt ++ b'$' ∷ crypto.pbkdf2_hex password salt, w')

  -- the comparison, or the `ValueError` of unpacking; a stored hash is ASCII, as `compare_digest` asks
  unfoldable pub check_hash : String → Option (List ℕ × List ℕ) → Bool
  unfolding same_codes
  check_hash password none = false
  check_hash password (some (salt, expected)) =
      same_codes (crypto.pbkdf2_hex password salt) expected

  unfoldable pub verify_password : String → List ℕ → Bool
  unfolding split_once check_hash
  verify_password password password_hash = check_hash password (split_once b'$' password_hash)
