-- ===== src/Domain/Auth.antt =====
-- app/domain/auth.py. The token is the list of its code points.
use day_trade_intellegence.Prelude.{ℕ, String, Bool, List}

pub record UserRead : Type 0 where
  pub id : ℕ
  pub username : String
  pub role : String
  pub is_active : Bool
  pub created_at : ℕ

pub record TokenResponse : Type 0 where
  pub access_token : List ℕ
  pub token_type : String
  pub expires_in : ℕ
  pub user : UserRead
