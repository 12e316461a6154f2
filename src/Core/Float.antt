-- ===== src/Core/Float.antt =====
-- Python's `float`. The type and its operations are an interface: nothing is assumed of rounding
-- beyond the laws of `IsOrdered`, which IEEE 754 double precision satisfies.
pub mod Fixed
use day_trade_intellegence.Prelude.{◌≤◌, ℕ, String, ◌≡◌, Bool, true, false, List, Option}

pub record Float (F : Type 0) : Type 0 where
  -- the literal m / 10^k, so that `lit 6 1` is 0.6
  pub lit : ℕ → ℕ → F
  -- `float(n)`, also where an `int` meets a `float`, for an `n` that a double can hold; Python raises an
  -- `OverflowError` for one of more than 308 digits
  pub of_int : ℕ → F
  pub add : F → F → F
  pub sub : F → F → F
  pub mul : F → F → F
  -- the quotient by a divisor that is not zero
  pub div : F → F → F
  pub abs : F → F
  -- `sum` of a list, in the order that the interpreter adds in
  pub sum : List F → F
  -- `round(x, n)`
  pub round : F → ℕ → F
  pub eq : F → F → Bool
  pub lt : F → F → Bool
  pub le : F → F → Bool
  pub is_finite : F → Bool
  -- `float(text)`; `none` is the `ValueError`
  pub parse : String → Option F
  -- `f"{x:.4f}"`
  pub format4 : F → String

module _ {F : Type 0} ⦃fl : Float F⦄ where
  abbrev pub nought : F
  nought = fl.lit 0 1

  abbrev pub one : F
  one = fl.lit 10 1

  -- Python's `max(a, b)` and `min(a, b)`, which keep the first of two that are not ordered.
  abbrev pub max : F → F → F
  max a b = elim (fl.lt a b) [ true ↦ b | false ↦ a ]

  abbrev pub min : F → F → F
  min a b = elim (fl.lt b a) [ true ↦ b | false ↦ a ]

-- Laws of the order that hold for doubles, infinities and NaN included.
pub record IsOrdered {F : Type 0} (fl : Float F) : Type 0 where
  pub lt-zero_one : fl.lt (fl.lit 0 1) (fl.lit 10 1) ≡ true
  pub lt-eq : (x y : F) → fl.lt x y ≡ true → fl.eq y x ≡ false
  pub lt_asymm : (x y : F) → fl.lt x y ≡ true → fl.lt y x ≡ false
  pub lt_of_lt_le : (x y z : F) → fl.lt x y ≡ true → fl.le y z ≡ true → fl.lt x z ≡ true
  pub lt_of_le_lt : (x y z : F) → fl.le x y ≡ true → fl.lt y z ≡ true → fl.lt x z ≡ true
  pub lt_irrefl : (x : F) → fl.lt x x ≡ false
  pub le_trans : (x y z : F) → fl.le x y ≡ true → fl.le y z ≡ true → fl.le x z ≡ true
  pub le-not_lt : (x y : F) → fl.le x y ≡ true → fl.lt y x ≡ false
  -- a number that is at least 0 is no NaN, so it is ordered with 1
  pub le_one :
      (x : F)
      → fl.le (fl.lit 0 1) x ≡ true
      → fl.lt (fl.lit 10 1) x ≡ false
      → fl.le x (fl.lit 10 1) ≡ true
  pub le_refl_one : fl.le (fl.lit 10 1) (fl.lit 10 1) ≡ true
  pub le_refl_zero : fl.le (fl.lit 0 1) (fl.lit 0 1) ≡ true
  pub le-zero_one : fl.le (fl.lit 0 1) (fl.lit 10 1) ≡ true
  pub abs_nonneg : (x : F) → fl.is_finite x ≡ true → fl.le (fl.lit 0 1) (fl.abs x) ≡ true
  pub abs-is_finite : (x : F) → fl.is_finite x ≡ true → fl.is_finite (fl.abs x) ≡ true
  pub div_nonneg :
      (x y : F)
      → fl.is_finite x ≡ true
      → fl.le (fl.lit 0 1) x ≡ true
      → fl.lt (fl.lit 0 1) y ≡ true
      → fl.le (fl.lit 0 1) (fl.div x y) ≡ true
  -- subtracting what is at most 0 does not make a number smaller, and dividing by it then gives at
  -- least 1, after rounding too
  pub sub-le :
      (x y : F) → fl.is_finite x ≡ true → fl.le y (fl.lit 0 1) ≡ true → fl.le x (fl.sub x y) ≡ true
  pub div-ge_one :
      (x y : F)
      → fl.is_finite y ≡ true
      → fl.lt (fl.lit 0 1) y ≡ true
      → fl.le y x ≡ true
      → fl.le (fl.lit 10 1) (fl.div x y) ≡ true
  pub sub_self_lt :
      (x : F) (m k : ℕ)
      → fl.is_finite x ≡ true
      → fl.lt (fl.lit 0 1) (fl.lit m k) ≡ true
      → fl.lt (fl.abs (fl.sub x x)) (fl.lit m k) ≡ true
  -- the tolerances of the reconciliation, 0.0001 and 0.01
  pub lt-zero_tolerance : fl.lt (fl.lit 0 1) (fl.lit 1 4) ≡ true
  pub lt-zero_cent : fl.lt (fl.lit 0 1) (fl.lit 1 2) ≡ true
  pub lt-tolerance_one : fl.lt (fl.lit 1 4) (fl.lit 10 1) ≡ true
  pub of_int-ge_one : (n : ℕ) → 1 ≤ n → fl.le (fl.lit 10 1) (fl.of_int n) ≡ true
  pub le_abs : (x : F) → fl.le (fl.lit 10 1) x ≡ true → fl.le (fl.lit 10 1) (fl.abs x) ≡ true
