-- ===== src/Services/Reconciliation/Symbols.antt =====
-- `sorted(set(…))` of texts: Python orders texts by their code points.
use Prim.Native.String.compare
use Prim.Native.Nat.{Ordering, compare as compare_ℕ}
use Prim.Native.Char.{code}
use Prim.Native.String.{String, compare, then}
use text.Mathlib.TextEquality.{path_by_compare}
use day_trade_intellegence.Prelude.{
  All, IsAmong, List, String, [], arith, inl, inr, refl, sym, ℕ, ◌<◌, ◌↔◌, ◌∙◌, ◌∷◌, ◌≡◌, ◌⊎◌,
}

-- A text put at its place in an increasing list, unless it is there already.
unfoldable pub insert_symbol : String → List String → List String
insert_symbol s [] = s ∷ []
insert_symbol s (t ∷ ts) =
    let rest = insert_symbol s ts in
    elim (compare s t) [ Ordering.lt ↦ s ∷ t ∷ ts | Ordering.eq ↦ t ∷ ts | Ordering.gt ↦ t ∷ rest ]

unfoldable pub sorted_set : List String → List String
unfolding insert_symbol
sorted_set [] = []
sorted_set (s ∷ ss) = insert_symbol s (sorted_set ss)

-- Each text is before all that follow it, so no text comes twice.
abbrev pub IsIncreasing : List String → Type 0
IsIncreasing [] = Unit
IsIncreasing (t ∷ ts) = All (λ u. compare t u ≡ Ordering.lt) ts × IsIncreasing ts

insert_symbol-cases :
    (s t : String) (ts : List String)
    → ((compare s t ≡ Ordering.lt) × (insert_symbol s (t ∷ ts) ≡ s ∷ t ∷ ts))
      ⊎ ((s ≡ t) × (insert_symbol s (t ∷ ts) ≡ t ∷ ts))
      ⊎ ((compare s t ≡ Ordering.gt) × (insert_symbol s (t ∷ ts) ≡ t ∷ insert_symbol s ts))
unfolding insert_symbol
insert_symbol-cases s t ts = let o = compare s t in split o refl
  where
    split :
        (o : Ordering)
        → compare s t ≡ o
        → ((compare s t ≡ Ordering.lt) × (insert_symbol s (t ∷ ts) ≡ s ∷ t ∷ ts))
          ⊎ ((s ≡ t) × (insert_symbol s (t ∷ ts) ≡ t ∷ ts))
          ⊎ ((compare s t ≡ Ordering.gt) × (insert_symbol s (t ∷ ts) ≡ t ∷ insert_symbol s ts))
    split Ordering.lt e = inl (e, rw (e, insert_symbol) refl)
    split Ordering.eq e = inr (inl (path_by_compare s t e, rw (e, insert_symbol) refl))
    split Ordering.gt e = inr (inr (e, rw (e, insert_symbol) refl))

-- One step of the comparison of two texts, by their first code points.
then-lt :
    (m n : ℕ) (o : Ordering)
    → then (compare_ℕ m n) o ≡ Ordering.lt
    → (m < n) ⊎ ((m ≡ n) × (o ≡ Ordering.lt))
then-lt m n o h = ground arith

then-lt_of :
    (m n : ℕ) (o : Ordering)
    → (m < n) ⊎ ((m ≡ n) × (o ≡ Ordering.lt))
    → then (compare_ℕ m n) o ≡ Ordering.lt
then-lt_of m n o (inl h) = ground arith
then-lt_of m n o (inr (h, k)) = ground arith

then-gt :
    (m n : ℕ) (o : Ordering)
    → then (compare_ℕ m n) o ≡ Ordering.gt
    → (n < m) ⊎ ((n ≡ m) × (o ≡ Ordering.gt))
then-gt m n o h = ground arith

compare_gt : (s t : String) → compare s t ≡ Ordering.gt → compare t s ≡ Ordering.lt
compare_gt String.[] String.[] h = cc (h, compare.nil-nil)
compare_gt String.[] (String.◌∷◌ d t) h = cc (h, compare.nil-cons d t)
compare_gt (String.◌∷◌ c s) String.[] h = compare.nil-cons c s
compare_gt (String.◌∷◌ c s) (String.◌∷◌ d t) h =
    rw (compare.cons-cons d c t s)
      (elim (then-gt (code c) (code d) (compare s t) (sym (compare.cons-cons c d s t) ∙ h)) [
        | inl less ↦ then-lt_of (code d) (code c) (compare t s) (inl less)
        | inr (same, more) ↦
            then-lt_of (code d) (code c) (compare t s) (inr (same, compare_gt s t more))
      ])

compare_lt_trans :
    (s t u : String)
    → compare s t ≡ Ordering.lt
    → compare t u ≡ Ordering.lt
    → compare s u ≡ Ordering.lt
compare_lt_trans String.[] String.[] u h k = k
compare_lt_trans String.[] (String.◌∷◌ d t) String.[] h k = cc (k, compare.cons-nil d t)
compare_lt_trans String.[] (String.◌∷◌ d t) (String.◌∷◌ e u) h k = compare.nil-cons e u
compare_lt_trans (String.◌∷◌ c s) String.[] u h k = cc (h, compare.cons-nil c s)
compare_lt_trans (String.◌∷◌ c s) (String.◌∷◌ d t) String.[] h k = cc (k, compare.cons-nil d t)
compare_lt_trans (String.◌∷◌ c s) (String.◌∷◌ d t) (String.◌∷◌ e u) h k =
    rw (compare.cons-cons c e s u) (
      then-lt_of (code c) (code e) (compare s u) (
        joined (compare_lt_trans s t u)
          (then-lt (code c) (code d) (compare s t) (sym (compare.cons-cons c d s t) ∙ h))
          (then-lt (code d) (code e) (compare t u) (sym (compare.cons-cons d e t u) ∙ k))))
  where
    joined :
        (compare s t ≡ Ordering.lt → compare t u ≡ Ordering.lt → compare s u ≡ Ordering.lt)
        → (code c < code d) ⊎ ((code c ≡ code d) × (compare s t ≡ Ordering.lt))
        → (code d < code e) ⊎ ((code d ≡ code e) × (compare t u ≡ Ordering.lt))
        → (code c < code e) ⊎ ((code c ≡ code e) × (compare s u ≡ Ordering.lt))
    joined ih (inl p) (inl q) = inl (omega arith)
    joined ih (inl p) (inr (q, r)) = inl (omega arith)
    joined ih (inr (p, r)) (inl q) = inl (omega arith)
    joined ih (inr (p, r)) (inr (q, r')) = inr (p ∙ q, ih r r')

-- All that are after `t` are after what is before `t`.
after_trans :
    (s t : String) (ts : List String)
    → compare s t ≡ Ordering.lt
    → All (λ u. compare t u ≡ Ordering.lt) ts
    → All (λ u. compare s u ≡ Ordering.lt) ts
after_trans s t [] h all = tt
after_trans s t (u ∷ us) h (less, all) = (compare_lt_trans s t u h less, after_trans s t us h all)

insert_symbol-nil : (s : String) → insert_symbol s [] ≡ s ∷ []
unfolding insert_symbol
insert_symbol-nil s = refl

insert_symbol-after :
    (s t : String) (ts : List String)
    → compare t s ≡ Ordering.lt
    → All (λ u. compare t u ≡ Ordering.lt) ts
    → All (λ u. compare t u ≡ Ordering.lt) (insert_symbol s ts)
insert_symbol-after s t [] h all = rw (insert_symbol-nil s) (h, tt)
insert_symbol-after s t (u ∷ us) h (less, all) = elim (insert_symbol-cases s u us) [
  | inl (e, q) ↦ rw q (h, (less, all))
  | inr (inl (e, q)) ↦ rw q (less, all)
  | inr (inr (e, q)) ↦ rw q (less, insert_symbol-after s t us h all)
]

insert_symbol-IsIncreasing :
    (s : String) (ts : List String) → IsIncreasing ts → IsIncreasing (insert_symbol s ts)
insert_symbol-IsIncreasing s [] increasing = rw (insert_symbol-nil s) (tt, tt)
insert_symbol-IsIncreasing s (t ∷ ts) (all, increasing) = elim (insert_symbol-cases s t ts) [
  | inl (e, q) ↦ rw q ((e, after_trans s t ts e all), (all, increasing))
  | inr (inl (e, q)) ↦ rw q (all, increasing)
  | inr (inr (e, q)) ↦ rw q (
    insert_symbol-after s t ts (compare_gt s t e) all,
    insert_symbol-IsIncreasing s ts increasing,
  )
]

pub sorted_set-IsIncreasing : (ss : List String) → IsIncreasing (sorted_set ss)
unfolding sorted_set
sorted_set-IsIncreasing [] = tt
sorted_set-IsIncreasing (s ∷ ss) =
    insert_symbol-IsIncreasing s (sorted_set ss) (sorted_set-IsIncreasing ss)

insert_symbol-IsAmong :
    (x s : String) (ts : List String) → IsAmong x (insert_symbol s ts) ↔ ((x ≡ s) ⊎ IsAmong x ts)
insert_symbol-IsAmong x s [] = rw (insert_symbol-nil s) (λ h. h, λ h. h)
insert_symbol-IsAmong x s (t ∷ ts) =
    let (into, out) = insert_symbol-IsAmong x s ts in
    elim (insert_symbol-cases s t ts) [
      | inl (e, q) ↦ rw q (λ h. h, λ h. h)
      | inr (inl (e, q)) ↦ rw q (inr, λ h. elim h [ inl p ↦ inl (p ∙ e) | inr m ↦ m ])
      | inr (inr (e, q)) ↦ rw q (forward into, backward out)
    ]
  where
    forward :
        (IsAmong x (insert_symbol s ts) → (x ≡ s) ⊎ IsAmong x ts)
        → (x ≡ t) ⊎ IsAmong x (insert_symbol s ts)
        → (x ≡ s) ⊎ (x ≡ t) ⊎ IsAmong x ts
    forward k (inl p) = inr (inl p)
    forward k (inr m) = elim (k m) [ inl p ↦ inl p | inr n ↦ inr (inr n) ]

    backward :
        ((x ≡ s) ⊎ IsAmong x ts → IsAmong x (insert_symbol s ts))
        → (x ≡ s) ⊎ (x ≡ t) ⊎ IsAmong x ts
        → (x ≡ t) ⊎ IsAmong x (insert_symbol s ts)
    backward k (inl p) = inr (k (inl p))
    backward k (inr (inl p)) = inl p
    backward k (inr (inr m)) = inr (k (inr m))

pub sorted_set-IsAmong : (x : String) (ss : List String) → IsAmong x (sorted_set ss) ↔ IsAmong x ss
unfolding sorted_set
sorted_set-IsAmong x [] = (λ h. h, λ h. h)
sorted_set-IsAmong x (s ∷ ss) =
    let (into, out) = insert_symbol-IsAmong x s (sorted_set ss) in
    let (into', out') = sorted_set-IsAmong x ss in
    (
      λ h. elim (into h) [ inl p ↦ inl p | inr m ↦ inr (into' m) ],
      λ h. elim h [ inl p ↦ out (inl p) | inr m ↦ out (inr (out' m)) ],
    )
