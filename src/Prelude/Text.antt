-- ===== src/Prelude/Text.antt =====
-- Texts: code points, `str` of a number, `str.lower`.
use Prim.Native.Char.{code}
use Prim.Native.String
use Prim.Native.Nat.{ℕ, zero, suc, ◌+◌, ◌/◌, ◌%◌, compare, Ordering}
use Prim.Native.String.{String}
use mathlib.Core.Bool.{Bool, true, false, ◌&&◌}
use mathlib.Core.Path.{◌≡◌, refl}
use mathlib.Core.List.{List, [], ◌∷◌, map}

abbrev pub codes : String → List ℕ
codes String.[] = []
codes (String.◌∷◌ c s) = code c ∷ codes s

abbrev pub is_empty : String → Bool
is_empty String.[] = true
is_empty (String.◌∷◌ c s) = false

-- `str.lower` of a code point of ASCII; any other code point is kept.
unfoldable pub lower : ℕ → ℕ
lower c = elim (compare c b'A') [
  | Ordering.lt ↦ c
  | _ ↦ elim (compare c b'Z') [ Ordering.gt ↦ c | _ ↦ c + 32 ]
]

unfoldable pub same_codes : List ℕ → List ℕ → Bool
same_codes [] [] = true
same_codes (a ∷ s) (b ∷ t) = elim (compare a b) [ Ordering.eq ↦ true | _ ↦ false ] && same_codes s t
same_codes _ _ = false

-- `text.lower() == word`, for a word of lower-case ASCII letters. No letter outside ASCII has one of
-- the letters of "development" and "local" as its lower-case form.
unfoldable pub lower_is : String → String → Bool
unfolding lower same_codes
lower_is text word = same_codes (map lower (codes text)) (codes word)

-- The text of one decimal digit.
unfoldable pub digit : ℕ → String
digit zero = "0"
digit (suc zero) = "1"
digit (suc (suc zero)) = "2"
digit (suc (suc (suc zero))) = "3"
digit (suc (suc (suc (suc zero)))) = "4"
digit (suc (suc (suc (suc (suc zero))))) = "5"
digit (suc (suc (suc (suc (suc (suc zero)))))) = "6"
digit (suc (suc (suc (suc (suc (suc (suc zero))))))) = "7"
digit (suc (suc (suc (suc (suc (suc (suc (suc zero)))))))) = "8"
digit _ = "9"

-- `n` has at most `n` digits after its first, so the fuel is enough.
unfoldable pub decimal_from : ℕ → ℕ → String
unfolding digit
decimal_from zero n = digit (n % 10)
decimal_from (suc fuel) n =
    let rest = decimal_from fuel (n / 10) in
    elim (compare n 10) [ Ordering.lt ↦ digit n | _ ↦ String.◌++◌ rest (digit (n % 10)) ]

-- `str(n)`
unfoldable pub decimal : ℕ → String
unfolding decimal_from
decimal n = decimal_from n n

decimal_test : decimal 10240 ≡ "10240"
unfolding decimal
decimal_test = refl
