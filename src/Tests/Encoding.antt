-- ===== src/Tests/Encoding.antt =====
-- A stand-in for `json`, `hmac` and `hashlib` that meets the laws of `IsCrypto`: texts and numbers in
-- unary, read back from the right.
use Prim.Native.Nat.{Ordering, compare}
use Prim.Native.Char.{Char, char, code, nul, IsLt}
use text.Mathlib.TextEquality.{Char-path}
use day_trade_intellegence.Core.Float.Fixed.{fixed}
use day_trade_intellegence.Prelude.{
  All, List, Option, String, [], ap, arith, none, refl, some, suc, sym, zero, ℕ, ◌+◌, ◌∙◌, ◌∷◌, ◌≡◌,
}
use day_trade_intellegence.Security.Base64.{IsByte}
use day_trade_intellegence.Security.Crypto.{Claims}

-- What makes a number a scalar value, by the three comparisons.
abbrev Both : Ordering → Ordering → Type 0
Both Ordering.lt o = IsLt o
Both Ordering.eq o = ⊥
Both Ordering.gt o = ⊥

abbrev IsScalarBy : Ordering → Ordering → Ordering → Type 0
IsScalarBy Ordering.lt p q = Unit
IsScalarBy Ordering.eq p q = Both p q
IsScalarBy Ordering.gt p q = Both p q

abbrev pick_both : (p q : Ordering) → Option (Both p q)
pick_both Ordering.lt Ordering.lt = some tt
pick_both Ordering.lt Ordering.eq = none
pick_both Ordering.lt Ordering.gt = none
pick_both Ordering.eq q = none
pick_both Ordering.gt q = none

abbrev pick : (o p q : Ordering) → Option (IsScalarBy o p q)
pick Ordering.lt p q = some tt
pick Ordering.eq p q = pick_both p q
pick Ordering.gt p q = pick_both p q

pick_both-some : (p q : Ordering) → (b : Both p q) → (c : Both p q) × (pick_both p q ≡ some c)
pick_both-some Ordering.lt Ordering.lt b = (tt, refl)
pick_both-some Ordering.lt Ordering.eq b = absurd b
pick_both-some Ordering.lt Ordering.gt b = absurd b
pick_both-some Ordering.eq q b = absurd b
pick_both-some Ordering.gt q b = absurd b

pick-some :
    (o p q : Ordering) → (b : IsScalarBy o p q) → (c : IsScalarBy o p q) × (pick o p q ≡ some c)
pick-some Ordering.lt p q b = (tt, refl)
pick-some Ordering.eq p q b = pick_both-some p q b
pick-some Ordering.gt p q b = pick_both-some p q b

abbrev as_char :
    (n : ℕ) → Option (IsScalarBy (compare n 55296) (compare 57343 n) (compare n 1114112)) → Char
as_char n none = nul
as_char n (some p) = char n p

abbrev to_char : ℕ → Char
to_char n = as_char n (pick (compare n 55296) (compare 57343 n) (compare n 1114112))

to_char-code : (c : Char) → to_char (code c) ≡ c
to_char-code (char n p) =
    let (q, e) = pick-some (compare n 55296) (compare 57343 n) (compare n 1114112) p in
    ap (as_char n) e ∙ Char-path (char n q) (char n p) refl

abbrev ones : ℕ → List ℕ → List ℕ
ones zero s = s
ones (suc n) s = 1 ∷ ones n s

abbrev characters : String → List ℕ → List ℕ
characters String.[] s = s
characters (String.◌∷◌ c t) s = 0 ∷ ones (code c) (characters t s)

abbrev pub encode : String → String → ℕ → List ℕ
encode sub role exp = 2 ∷ characters sub (2 ∷ characters role (3 ∷ ones exp []))

-- The number, the text and the finished fields to the right.
record Reading : Type 0 where
  count : ℕ
  text : String
  texts : List String
  number : ℕ

abbrev step : ℕ → Reading → Reading
step zero r = record r { count = 0; text = String.◌∷◌ (to_char r.count) r.text }
step (suc zero) r = record r { count = suc r.count }
step (suc (suc zero)) r = record r { text = String.[]; texts = r.text ∷ r.texts }
step (suc (suc (suc n))) r = record r { count = 0; number = r.count }

abbrev read : List ℕ → Reading
read [] = record { count = 0; text = String.[]; texts = []; number = 0 }
read (x ∷ s) = step x (read s)

abbrev claims_of : Reading → List String → Option Claims
claims_of r (sub ∷ role ∷ []) = some (record { sub = some sub; role = role; exp = r.number })
claims_of r [] = none
claims_of r (sub ∷ []) = none
claims_of r (sub ∷ role ∷ more ∷ rest) = none

abbrev pub decode : List ℕ → Option Claims
decode s = claims_of (read s) (read s).texts

with_count : (r : Reading) {m n : ℕ} → m ≡ n → record r { count = m } ≡ record r { count = n }
with_count r e = ap (λ k. record r { count = k }) e

read-ones : (n : ℕ) (s : List ℕ) → read (ones n s) ≡ record (read s) { count = n + (read s).count }
read-ones zero s =
    let same : (read s).count ≡ zero + (read s).count = omega arith in with_count (read s) same
read-ones (suc n) s =
    let more : suc (n + (read s).count) ≡ suc n + (read s).count = omega arith in
    ap (step 1) (read-ones n s) ∙ with_count (read s) more

-- What is read once the text `t` stands before what was read.
abbrev texted : Reading → String → Reading
texted r t = record r { count = 0; text = t }

read-characters :
    (t : String) (s : List ℕ)
    → read s ≡ texted (read s) String.[]
    → read (characters t s) ≡ texted (read s) t
read-characters String.[] s h = h
read-characters (String.◌∷◌ c t) s h =
    let rest = characters t s in
    let ih : read rest ≡ texted (read s) t = read-characters t s h in
    let whole : code c + 0 ≡ code c = omega arith in
    ap (step 0) (read-ones (code c) rest)
    ∙ ap (λ r. step 0 (record r { count = code c + r.count })) ih
    ∙ ap (λ k. texted (read s) (String.◌∷◌ (to_char k) t)) whole
    ∙ ap (λ d. texted (read s) (String.◌∷◌ d t)) (to_char-code c)

abbrev last_number : ℕ → List ℕ
last_number exp = 3 ∷ ones exp []

read_number :
    (exp : ℕ)
    → read (last_number exp) ≡ record { count = 0; text = String.[]; texts = []; number = exp }
read_number exp =
    let whole : exp + 0 ≡ exp = omega arith in
    ap (step 3) (read-ones exp [])
    ∙ ap (λ k. record { count = 0; text = String.[]; texts = []; number = k }) whole

abbrev reading : String → List String → ℕ → Reading
reading t texts exp = record { count = 0; text = t; texts = texts; number = exp }

read_role :
    (role : String) (exp : ℕ) → read (characters role (last_number exp)) ≡ reading role [] exp
read_role role exp =
    let e = read_number exp in
    read-characters role (last_number exp) (e ∙ ap (λ r. texted r String.[]) (sym e))
    ∙ ap (λ r. texted r role) e

read_both :
    (sub role : String) (exp : ℕ)
    → read (characters sub (2 ∷ characters role (last_number exp))) ≡ reading sub (role ∷ []) exp
read_both sub role exp =
    let e : read (2 ∷ characters role (last_number exp)) ≡ reading String.[] (role ∷ []) exp =
      ap (step 2) (read_role role exp) in
    read-characters sub (2 ∷ characters role (last_number exp))
      (e ∙ ap (λ r. texted r String.[]) (sym e))
    ∙ ap (λ r. texted r sub) e

pub decode-encode :
    (sub role : String) (exp : ℕ)
    → decode (encode sub role exp) ≡ some (record { sub = some sub; role = role; exp = exp })
decode-encode sub role exp = ap (λ r. claims_of r r.texts) (ap (step 2) (read_both sub role exp))

ones-IsByte : (n : ℕ) (s : List ℕ) → All IsByte s → All IsByte (ones n s)
ones-IsByte zero s all = all
ones-IsByte (suc n) s all = (omega arith, ones-IsByte n s all)

characters-IsByte : (t : String) (s : List ℕ) → All IsByte s → All IsByte (characters t s)
characters-IsByte String.[] s all = all
characters-IsByte (String.◌∷◌ c t) s all =
    (omega arith, ones-IsByte (code c) (characters t s) (characters-IsByte t s all))

pub encode-IsByte : (sub role : String) (exp : ℕ) → All IsByte (encode sub role exp)
encode-IsByte sub role exp = (
  omega arith,
  characters-IsByte sub _
      (omega arith, characters-IsByte role _ (omega arith, ones-IsByte exp [] tt)),
)
