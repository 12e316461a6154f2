-- ===== src/Domain/Json.antt =====
-- The values of a `dict[str, Any]`, which the records carry as metadata.
use day_trade_intellegence.Prelude.{ℕ, String, Bool}

mutual
  pub data Json (F : Type 0) : Type 0 where
    null : Json F
    bool : Bool → Json F
    int : ℕ → Json F
    float : F → Json F
    str : String → Json F
    list : Items F → Json F
    dict : Metadata F → Json F

  pub data Items (F : Type 0) : Type 0 where
    nil : Items F
    cons : Json F → Items F → Items F

  -- The entries of a dictionary, in insertion order.
  pub data Metadata (F : Type 0) : Type 0 where
    empty : Metadata F
    entry : String → Json F → Metadata F → Metadata F
