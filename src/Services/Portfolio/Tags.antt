-- ===== src/Services/Portfolio/Tags.antt =====
-- The last pair of a key, written out, and what a dictionary of the pairs has for the key.
-- No pair has the key.
use day_trade_intellegence.Prelude.{
  All, Bool-cases, List, Option, String, [], ap, eq_iff, if◌then◌else◌, inl, inr, none, refl, some,
  str_eq, ◌++◌, ◌∷◌, ◌≡◌, ◌≢◌,
}
use day_trade_intellegence.Services.Portfolio.{dict_get}

abbrev pub IsAbsent : String → List (String × String) → Type 0
IsAbsent key pairs = All (λ pair. pair.0 ≢ key) pairs

-- The last pair with the key has this value.
abbrev pub IsLast : String → List (String × String) → String → Type 0
IsLast key pairs value =
    (front : List (String × String)) × ((back : List (String × String)) × (pairs
        ≡ front ++ (key, value) ∷ back)
      × IsAbsent key back)

-- What a dictionary of the pairs has for the key.
abbrev pub Got : String → List (String × String) → Option String → Type 0
Got key pairs none = IsAbsent key pairs
Got key pairs (some value) = IsLast key pairs value

pub dict_get-Got :
    (key : String) (pairs : List (String × String)) → Got key pairs (dict_get key pairs)
unfolding dict_get
dict_get-Got key [] = tt
dict_get-Got key (pair ∷ pairs) = found (dict_get key pairs) (dict_get-Got key pairs)
  where
    found :
        (o : Option String)
        → Got key pairs o
        → Got key
            (pair ∷ pairs)
            (elim o [ some v ↦ some v | none ↦ if str_eq pair.0 key then some pair.1 else none ])
    found (some v) (front, (back, e, absent)) = (pair ∷ front, (back, ap (◌∷◌ pair) e, absent))
    found none absent = elim (Bool-cases (str_eq pair.0 key)) [
      | inl e ↦ rw e ([], (pairs, ap (λ k. (k, pair.1) ∷ pairs) ((eq_iff pair.0 key).0 e), absent))
      | inr e ↦ rw e (λ same. cc (e, (eq_iff pair.0 key).1 same), absent)
    ]

pub dict_get-none :
    (key : String) (pairs : List (String × String)) → IsAbsent key pairs → dict_get key pairs ≡ none
unfolding dict_get
dict_get-none key [] h = refl
dict_get-none key (pair ∷ pairs) h = elim (Bool-cases (str_eq pair.0 key)) [
  | inl e ↦ absurd (h.0 ((eq_iff pair.0 key).0 e))
  | inr e ↦ rw (dict_get-none key pairs h.1, e) refl
]

pub dict_get-last :
    (key value : String) (front back : List (String × String))
    → IsAbsent key back
    → dict_get key (front ++ (key, value) ∷ back) ≡ some value
unfolding dict_get
dict_get-last key value [] back h = rw (dict_get-none key back h, (eq_iff key key).1 refl) refl
dict_get-last key value (pair ∷ front) back h = rw (dict_get-last key value front back h) refl
