-- ===== src/Security/Split.antt =====
-- `str.split`, and comparing texts.
use mathlib.Core.Path.{subst}
use day_trade_intellegence.Prelude.{
  All, Bool-cases, List, Option, [], ap, arith, false, inl, inr, none, refl, same_codes, some, sym,
  true, ℕ, ◌++◌, ◌==◌, ◌↔◌, ◌∙◌, ◌∷◌, ◌≡◌, ◌≢◌, ◌⊎◌,
}

-- A code point put before the first part.
abbrev cons_head : ℕ → List (List ℕ) → List (List ℕ)
cons_head c [] = (c ∷ []) ∷ []
cons_head c (p ∷ ps) = (c ∷ p) ∷ ps

-- `text.split(d)`
unfoldable pub split : ℕ → List ℕ → List (List ℕ)
split d [] = [] ∷ []
split d (c ∷ s) =
    let rest = split d s in elim (c == d) [ true ↦ [] ∷ rest | false ↦ cons_head c rest ]

-- `text.split(d, maxsplit=1)`, where `none` is a text that cannot be unpacked into two parts.
unfoldable pub split_once : ℕ → List ℕ → Option (List ℕ × List ℕ)
split_once d [] = none
split_once d (c ∷ s) = elim (c == d) [
  | true ↦ some ([], s)
  | false ↦ elim (split_once d s) [ none ↦ none | some (a, b) ↦ some (c ∷ a, b) ]
]

abbrev pub Lacks : ℕ → List ℕ → Type 0
Lacks d s = All (λ c. c ≢ d) s

-- The parts with `d` between them.
abbrev pub join : ℕ → List (List ℕ) → List ℕ
join d [] = []
join d (p ∷ []) = p
join d (p ∷ q ∷ ps) = p ++ d ∷ join d (q ∷ ps)

pub differs : (c d : ℕ) → c ≢ d → (c == d) ≡ false
differs c d h = ground arith

split-here : (d : ℕ) (s : List ℕ) → split d (d ∷ s) ≡ [] ∷ split d s
unfolding split
split-here d s = ground arith

split-past : (c d : ℕ) (s : List ℕ) → c ≢ d → split d (c ∷ s) ≡ cons_head c (split d s)
unfolding split
split-past c d s h = rw (differs c d h, split) refl

split-nil : (d : ℕ) → split d [] ≡ [] ∷ []
unfolding split
split-nil d = refl

pub split-last : (d : ℕ) (p : List ℕ) → Lacks d p → split d p ≡ p ∷ []
split-last d [] lacks = split-nil d
split-last d (c ∷ p) (h, lacks) = split-past c d p h ∙ ap (cons_head c) (split-last d p lacks)

pub split-part : (d : ℕ) (p s : List ℕ) → Lacks d p → split d (p ++ d ∷ s) ≡ p ∷ split d s
split-part d [] s lacks = split-here d s
split-part d (c ∷ p) s (h, lacks) =
    split-past c d (p ++ d ∷ s) h ∙ ap (cons_head c) (split-part d p s lacks)

pub equal_or_not : (c d : ℕ) → (c ≡ d) ⊎ (c ≢ d)
equal_or_not c d = elim (Bool-cases (c == d)) [
  | inl e ↦ inl (ground arith)
  | inr e ↦ inr (λ same. ground arith)
]

join-cons_head :
    (c d : ℕ) (p : List ℕ) (ps : List (List ℕ))
    → join d (cons_head c (p ∷ ps)) ≡ c ∷ join d (p ∷ ps)
join-cons_head c d p [] = refl
join-cons_head c d p (q ∷ ps) = refl

split_cons : (d : ℕ) (s : List ℕ) → (p : List ℕ) × (ps : List (List ℕ)) × (split d s ≡ p ∷ ps)
split_cons d [] = ([], [], split-nil d)
split_cons d (c ∷ s) =
    let (p, ps, e) = split_cons d s in
    elim (equal_or_not c d) [
      | inl same ↦ ([], split d s, ap (λ x. split d (x ∷ s)) same ∙ split-here d s)
      | inr other ↦ (c ∷ p, ps, split-past c d s other ∙ ap (cons_head c) e)
    ]

-- The parts of a text, joined, are the text.
pub join-split : (d : ℕ) (s : List ℕ) → join d (split d s) ≡ s
join-split d [] = ap (join d) (split-nil d)
join-split d (c ∷ s) =
    let (p, ps, e) = split_cons d s in
    let rest : join d (p ∷ ps) ≡ s = ap (join d) (sym e) ∙ join-split d s in
    elim (equal_or_not c d) [
      | inl same ↦
          ap (λ x. join d (split d (x ∷ s))) same
          ∙ ap (join d) (split-here d s ∙ ap (◌∷◌ []) e)
          ∙ ap (◌∷◌ d) rest
          ∙ ap (λ x. x ∷ s) (sym same)
      | inr other ↦
          ap (join d) (split-past c d s other ∙ ap (cons_head c) e)
          ∙ join-cons_head c d p ps
          ∙ ap (◌∷◌ c) rest
    ]

same_codes_sound : (s t : List ℕ) → same_codes s t ≡ true → s ≡ t
unfolding same_codes
same_codes_sound [] [] h = refl
same_codes_sound [] (d ∷ t) h = cc
same_codes_sound (c ∷ s) [] h = cc
same_codes_sound (c ∷ s) (d ∷ t) h =
    let first : c ≡ d = ground arith in
    let rest : same_codes s t ≡ true = ground arith in
    ap (λ x. x ∷ s) first ∙ ap (◌∷◌ d) (same_codes_sound s t rest)

same_codes_refl : (s : List ℕ) → same_codes s s ≡ true
unfolding same_codes
same_codes_refl [] = refl
same_codes_refl (c ∷ s) = ground (arith, same_codes_refl s)

pub same_codes_iff : (s t : List ℕ) → (same_codes s t ≡ true) ↔ (s ≡ t)
same_codes_iff s t =
    (same_codes_sound s t, λ p. subst (λ u. same_codes s u ≡ true) p (same_codes_refl s))
