-- ===== src/Security/Base64.antt =====
-- `_b64url_encode` and `_b64url_decode` of app/security/tokens.py, with what they use of the standard
-- library's `base64` and `binascii`.
pub mod Symbol
pub mod RoundTrip
pub mod Dots
use day_trade_intellegence.Prelude.{
  List, Option, [], false, if◌then◌else◌, leb, length, ltb, none, some, true, ℕ, ◌%◌, ◌&&◌, ◌*◌,
  ◌++◌, ◌+◌, ◌-◌, ◌/◌, ◌<◌, ◌==◌, ◌||◌, ◌∷◌,
}

abbrev pub IsByte : ℕ → Type 0
IsByte a = a < 256

-- The symbol for six bits, in the alphabet of `urlsafe_b64encode`.
unfoldable pub symbol : ℕ → ℕ
symbol v =
    if ltb v 26
    then v + b'A'
    else if ltb v 52
    then v + 71
    else if ltb v 62
    then v - 4
    else if v == 62
    then b'-'
    else b'_'

-- The six bits of a symbol. `urlsafe_b64decode` turns `-` and `_` into `+` and `/` first.
unfoldable pub bits : ℕ → Option ℕ
bits c =
    if leb b'A' c && leb c b'Z'
    then some (c - b'A')
    else if leb b'a' c && leb c b'z'
    then some (c - 71)
    else if leb b'0' c && leb c b'9'
    then some (c + 4)
    else if c == b'-' || c == b'+'
    then some 62
    else if c == b'_' || c == b'/'
    then some 63
    else none

-- `base64.urlsafe_b64encode`: four symbols for three bytes, filled up with `=`.
unfoldable pub urlsafe_b64encode : List ℕ → List ℕ
unfolding symbol
urlsafe_b64encode [] = []
urlsafe_b64encode (a ∷ []) = symbol (a / 4) ∷ symbol (a % 4 * 16) ∷ b'=' ∷ b'=' ∷ []
urlsafe_b64encode (a ∷ b ∷ []) =
    symbol (a / 4) ∷ symbol (a % 4 * 16 + b / 16) ∷ symbol (b % 16 * 4) ∷ b'=' ∷ []
urlsafe_b64encode (a ∷ b ∷ c ∷ rest) =
    symbol (a / 4)
    ∷ symbol (a % 4 * 16 + b / 16)
    ∷ symbol (b % 16 * 4 + c / 64)
    ∷ symbol (c % 64)
    ∷ urlsafe_b64encode rest

-- The symbol `=` after all but the trailing ones.
unfoldable pub strip_cons : ℕ → List ℕ → List ℕ
strip_cons c [] = if c == b'=' then [] else c ∷ []
strip_cons c (d ∷ s) = c ∷ d ∷ s

-- `.rstrip(b"=")`
unfoldable pub rstrip_padding : List ℕ → List ℕ
unfolding strip_cons
rstrip_padding [] = []
rstrip_padding (c ∷ s) = strip_cons c (rstrip_padding s)

unfoldable pub b64url_encode : List ℕ → List ℕ
unfolding urlsafe_b64encode rstrip_padding
b64url_encode bytes = rstrip_padding (urlsafe_b64encode bytes)

-- How many symbols of a group of four `binascii` has read, with the bits that are left over.
pub data Quad : Type 0 where
  q0 : Quad
  q1 q2 q3 : ℕ → Quad

abbrev pub quad_pos : Quad → ℕ
quad_pos q0 = 0
quad_pos (q1 left) = 1
quad_pos (q2 left) = 2
quad_pos (q3 left) = 3

-- The next state after six bits.
abbrev pub next_quad : Quad → ℕ → Quad
next_quad q0 v = q1 v
next_quad (q1 left) v = q2 (v % 16)
next_quad (q2 left) v = q3 (v % 4)
next_quad (q3 left) v = q0

-- A byte before the bytes that follow, if these are decoded.
abbrev pub with_byte : ℕ → Option (List ℕ) → Option (List ℕ)
with_byte byte none = none
with_byte byte (some bytes) = some (byte ∷ bytes)

-- The byte that six bits complete, before the bytes that follow.
abbrev pub emit : Quad → ℕ → Option (List ℕ) → Option (List ℕ)
emit q0 v rest = rest
emit (q1 left) v rest = with_byte (left * 4 + v / 16) rest
emit (q2 left) v rest = with_byte (left * 16 + v / 4) rest
emit (q3 left) v rest = with_byte (left * 64 + v) rest

abbrev pub pads_after : Quad → ℕ → ℕ
pads_after q pads = if leb 2 (quad_pos q) then pads + 1 else pads

-- `binascii.a2b_base64` without strict mode: what is no symbol is skipped, and enough `=` end the
-- data. `none` is the `binascii.Error`.
unfoldable pub a2b_base64 : Quad → ℕ → List ℕ → Option (List ℕ)
unfolding bits
a2b_base64 q pads [] = if quad_pos q == 0 then some [] else none
a2b_base64 q pads (c ∷ s) = elim (c == b'=') [
  | true ↦ elim (leb 2 (quad_pos q) && leb 4 (quad_pos q + (pads + 1))) [
    | true ↦ some []
    | false ↦ a2b_base64 q (pads_after q pads) s
  ]
  | false ↦ elim (bits c) [
    | none ↦ a2b_base64 q pads s
    | some v ↦ emit q v (a2b_base64 (next_quad q v) 0 s)
  ]
]

-- `"=" * (-len(data) % 4)`
unfoldable pub padding : ℕ → List ℕ
padding n =
    if n % 4 == 0
    then []
    else if n % 4 == 3
    then b'=' ∷ []
    else if n % 4 == 2
    then b'=' ∷ b'=' ∷ []
    else b'=' ∷ b'=' ∷ b'=' ∷ []

unfoldable pub b64url_decode : List ℕ → Option (List ℕ)
unfolding a2b_base64 padding
b64url_decode text = a2b_base64 Quad.q0 0 (text ++ padding (length text))
