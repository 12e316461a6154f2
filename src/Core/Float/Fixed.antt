-- ===== src/Core/Float/Fixed.antt =====
-- A concrete `Float`: signed numbers of ten-thousandths, which show that the laws can be met and on
-- which the tests run. A product or a quotient is cut off behind the fourth digit.
use day_trade_intellegence.Core.Float.{Float, IsOrdered}
use day_trade_intellegence.Prelude.{
  Bool, List, Option, [], arith, codes, decimal, false, if◌then◌else◌, leb, ltb, none, not, refl,
  some, suc, true, ℕ, ◌&&◌, ◌*◌, ◌+◌, ◌-◌, ◌/◌, ◌<◌, ◌==◌, ◌^◌, ◌∷◌, ◌≡◌, ◌≤◌,
}

-- `negsuc n` is -(n + 1).
pub data ℤ : Type 0 where
  pos : ℕ → ℤ
  negsuc : ℕ → ℤ

abbrev pub pos_part : ℤ → ℕ
pos_part (ℤ.pos n) = n
pos_part (ℤ.negsuc n) = 0

abbrev pub neg_part : ℤ → ℕ
neg_part (ℤ.pos n) = 0
neg_part (ℤ.negsuc n) = suc n

-- a - b, as an integer.
abbrev sub_ℕ : ℕ → ℕ → ℤ
sub_ℕ a b = if leb b a then ℤ.pos (a - b) else ℤ.negsuc (b - a - 1)

abbrev magnitude : ℤ → ℕ
magnitude (ℤ.pos n) = n
magnitude (ℤ.negsuc n) = suc n

abbrev is_negative : ℤ → Bool
is_negative (ℤ.pos n) = false
is_negative (ℤ.negsuc n) = true

abbrev with_sign : Bool → ℕ → ℤ
with_sign negative n = if negative then sub_ℕ 0 n else ℤ.pos n

abbrev differ : Bool → Bool → Bool
differ true b = not b
differ false b = b

abbrev add_ℤ : ℤ → ℤ → ℤ
add_ℤ a b = sub_ℕ (pos_part a + pos_part b) (neg_part a + neg_part b)

abbrev sub_ℤ : ℤ → ℤ → ℤ
sub_ℤ a b = sub_ℕ (pos_part a + neg_part b) (neg_part a + pos_part b)

abbrev div_ℤ : ℤ → ℤ → ℤ
div_ℤ a b = with_sign (differ (is_negative a) (is_negative b)) (magnitude a * 10000 / magnitude b)

abbrev mul_ℤ : ℤ → ℤ → ℤ
mul_ℤ a b = with_sign (differ (is_negative a) (is_negative b)) (magnitude a * magnitude b / 10000)

abbrev lt_ℤ : ℤ → ℤ → Bool
lt_ℤ a b = ltb (pos_part a + neg_part b) (pos_part b + neg_part a)

abbrev le_ℤ : ℤ → ℤ → Bool
le_ℤ a b = leb (pos_part a + neg_part b) (pos_part b + neg_part a)

abbrev eq_ℤ : ℤ → ℤ → Bool
eq_ℤ a b = (pos_part a + neg_part b) == (pos_part b + neg_part a)

abbrev sum_ℤ : List ℤ → ℤ
sum_ℤ [] = ℤ.pos 0
sum_ℤ (x ∷ xs) = add_ℤ x (sum_ℤ xs)

-- Digits alone; any other character makes the text no number.
abbrev parse_digits : ℕ → List ℕ → Option ℤ
parse_digits n [] = some (ℤ.pos (n * 10000))
parse_digits n (c ∷ s) =
    if leb b'0' c && leb c b'9' then parse_digits (n * 10 + (c - b'0')) s else none

instance abbrev pub fixed : Float ℤ
fixed = record {
  lit = λ m k. ℤ.pos (m * 10000 / 10 ^ k);
  of_int = λ n. ℤ.pos (n * 10000);
  add = add_ℤ;
  sub = sub_ℤ;
  mul = mul_ℤ;
  div = div_ℤ;
  abs = λ x. ℤ.pos (magnitude x);
  sum = sum_ℤ;
  round = λ x n. x;
  eq = eq_ℤ;
  lt = lt_ℤ;
  le = le_ℤ;
  is_finite = λ x. true;
  parse = λ s. parse_digits 0 (codes s);
  format4 = λ x. decimal (magnitude x);
}

div-ge_one_lem : (x y : ℕ) → 0 < y → y ≤ x → 10000 ≤ x * 10000 / y
div-ge_one_lem x y p h = grind arith

div_lem :
    (x y : ℤ) → lt_ℤ (ℤ.pos 0) y ≡ true → le_ℤ y x ≡ true → le_ℤ (ℤ.pos 10000) (div_ℤ x y) ≡ true
div_lem (ℤ.pos x) (ℤ.pos y) h k = ground (arith, div-ge_one_lem x y)
div_lem x y h k = ground arith

pub fixed-IsOrdered : IsOrdered fixed
fixed-IsOrdered = record {
  lt-zero_one = refl;
  lt-eq = λ x y h. ground arith;
  lt_asymm = λ x y h. ground arith;
  lt_of_lt_le = λ x y z h k. ground arith;
  lt_of_le_lt = λ x y z h k. ground arith;
  lt_irrefl = λ x. ground arith;
  le_trans = λ x y z h k. ground arith;
  le-not_lt = λ x y h. ground arith;
  le_one = λ x h k. ground arith;
  le_refl_one = refl;
  le_refl_zero = refl;
  le-zero_one = refl;
  abs_nonneg = λ x h. ground arith;
  abs-is_finite = λ x h. refl;
  div_nonneg = λ x y f h k. ground arith;
  sub-le = λ x y f h. ground arith;
  div-ge_one = λ x y f h k. div_lem x y h k;
  sub_self_lt = λ x m k f h. ground arith;
  lt-zero_tolerance = refl;
  lt-zero_cent = refl;
  lt-tolerance_one = refl;
  of_int-ge_one = λ n h. ground arith;
  le_abs = λ x h. ground arith;
}
