-- ===== src/Tests/Security.antt =====
-- Passwords, tokens and roles on concrete data.
use day_trade_intellegence.Core.Action.{err, ok, ◌>>=◌}
use day_trade_intellegence.Core.Action.Ends.{Outcome}
use day_trade_intellegence.Core.Errors.{Error}
use day_trade_intellegence.Core.Float.Fixed.{fixed}
use day_trade_intellegence.Db.Models.{Stored, User}
use day_trade_intellegence.Prelude.{
  IsAmong, [], arith, codes, length, none, refl, some, true, ◌%◌, ◌*◌, ◌+◌, ◌↔◌, ◌∷◌, ◌≡◌,
}
use day_trade_intellegence.Repositories.{get_by_username}
use day_trade_intellegence.Security.Access.{require_role}
use day_trade_intellegence.Security.Access.Entry.{require_role-IsGranted}
use day_trade_intellegence.Security.Access.Granted.{IsGranted, IsRefusal}
use day_trade_intellegence.Security.Base64.{b64url_decode, b64url_encode}
use day_trade_intellegence.Security.Base64.RoundTrip.{b64url_decode-encode}
use day_trade_intellegence.Security.Crypto.{Crypto, IsCrypto}
use day_trade_intellegence.Security.Login.{login}
use day_trade_intellegence.Security.Login.Issued.{IsIssued, IsLoginError, login-IsIssued}
use day_trade_intellegence.Security.Passwords.{hash_password, verify_password}
use day_trade_intellegence.Security.Passwords.Verification.{IsHashOf, verify_password_iff}
use day_trade_intellegence.Security.Tokens.{create_access_token, decode_access_token}
use day_trade_intellegence.Security.Tokens.Authenticity.{
  IsAuthentic, decode_access_token-IsAuthentic, decode_access_token-create,
}
use day_trade_intellegence.Tests.Encoding.{decode, decode-encode, encode, encode-IsByte}
use day_trade_intellegence.Tests.Simulation.{
  Sim, live_market, no_tables, settings, sim_db-IsReliable, sim_db-IsTransactional, start,
}

-- A keyed digest of two bytes, and a key derivation that keeps the password.
abbrev pub sim_crypto : Crypto Sim
sim_crypto = record {
  token_hex = λ s. (codes "a1", s);
  pbkdf2_hex = λ password salt. codes password;
  hmac_sha256 = λ key text. length text % 256 ∷ 7 ∷ [];
  dumps = encode;
  loads = decode;
}

pub sim-IsCrypto : IsCrypto sim_crypto
sim-IsCrypto = record {
  digest = λ key text. (omega arith, (omega arith, tt));
  dumped = encode-IsByte;
  loads-dumps = decode-encode;
  salt = λ w. ((λ e. omega (arith, e)), ((λ e. omega (arith, e)), tt));
}

b64url_decode-encode_example : b64url_decode (b64url_encode (255 ∷ 7 ∷ [])) ≡ some (255 ∷ 7 ∷ [])
b64url_decode-encode_example = b64url_decode-encode (255 ∷ 7 ∷ []) (omega arith, (omega arith, tt))

verify_password_iff_example :
    ((verify_password sim_crypto "secret" (codes "a1$secret") ≡ true)
      ↔ IsHashOf sim_crypto "secret" (codes "a1$secret"))
    × (verify_password sim_crypto "secret" (hash_password sim_crypto "secret" start).0 ≡ true)
verify_password_iff_example =
    verify_password_iff sim_crypto sim-IsCrypto "secret" (codes "a1$secret") start

decode_access_token-create_example :
    decode_access_token sim_crypto settings 1000
      (create_access_token sim_crypto settings 500 "ann" "TRADER").0
    ≡ some (record { sub = some "ann"; role = "TRADER"; exp = 500 + 480 * 60 })
decode_access_token-create_example =
    decode_access_token-create sim_crypto settings sim-IsCrypto 500 1000 "ann" "TRADER"
      (omega arith)

decode_access_token-IsAuthentic_example :
    IsAuthentic sim_crypto settings 1000
      (create_access_token sim_crypto settings 500 "ann" "TRADER").0
      (record { sub = some "ann"; role = "TRADER"; exp = 500 + 480 * 60 })
decode_access_token-IsAuthentic_example =
    decode_access_token-IsAuthentic sim_crypto settings 1000
      (create_access_token sim_crypto settings 500 "ann" "TRADER").0
      (record { sub = some "ann"; role = "TRADER"; exp = 500 + 480 * 60 })
      (decode_access_token-create sim_crypto settings sim-IsCrypto 500 1000 "ann" "TRADER"
        (omega arith))

require_role-IsGranted_example :
    Outcome
      (λ role.
        IsAmong role ("ADMIN" ∷ [])
        × IsGranted sim_crypto settings no_tables 1000000 none (some "admin-local-key") role)
      IsRefusal
      (require_role sim_crypto settings live_market
        ("ADMIN" ∷ [])
        none
        (some "admin-local-key")
        start).0
require_role-IsGranted_example =
    require_role-IsGranted sim_crypto settings live_market sim_db-IsTransactional sim_db-IsReliable
      ("ADMIN" ∷ []) none (some "admin-local-key") start

admin_key_test :
    (require_role sim_crypto settings live_market
      ("ADMIN" ∷ [])
      none
      (some "admin-local-key")
      start).0
    ≡ ok "ADMIN"
unfolding require_role ◌>>=◌
admin_key_test = refl

trader_key_test :
    (require_role sim_crypto settings live_market
      ("ADMIN" ∷ [])
      none
      (some "trader-local-key")
      start).0
    ≡ err (Error.http_exception 403 "Insufficient role for this endpoint.")
unfolding require_role ◌>>=◌
trader_key_test = refl

abbrev pub ann : Stored User
ann = record {
  id = 1;
  stamp = 900;
  columns = record {
    username = "ann";
    password_hash = "a1$secret";
    role = "TRADER";
    is_active = true;
  };
}

-- A world with one user.
abbrev pub with_ann : Sim
with_ann = record start { database = record no_tables { users = ann ∷ [] } }

login-IsIssued_example :
    Outcome
      (IsIssued sim_crypto settings with_ann.database 1000000 "ann" "secret")
      IsLoginError
      (login sim_crypto settings live_market "ann" "secret" with_ann).0
unfolding login ◌>>=◌ get_by_username
login-IsIssued_example =
    login-IsIssued sim_crypto sim-IsCrypto settings live_market sim_db-IsTransactional
      sim_db-IsReliable "ann" "secret" with_ann
