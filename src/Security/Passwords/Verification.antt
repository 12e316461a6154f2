-- ===== src/Security/Passwords/Verification.antt =====
-- Which passwords a stored hash accepts.
use mathlib.Core.Path.{subst}
use day_trade_intellegence.Prelude.{
  List, Option, Option-cases, String, [], ap, arith, inl, inr, none, refl, some, sym, true, ℕ, ◌++◌,
  ◌↔◌, ◌∙◌, ◌∷◌, ◌≡◌, ◌≢◌,
}
use day_trade_intellegence.Security.Crypto.{Crypto, IsCrypto}
use day_trade_intellegence.Security.Passwords.{check_hash, hash_password, verify_password}
use day_trade_intellegence.Security.Split.{Lacks, differs, equal_or_not, same_codes_iff, split_once}

split_once-here : (d : ℕ) (s : List ℕ) → split_once d (d ∷ s) ≡ some ([], s)
unfolding split_once
split_once-here d s = ground arith

split_once-past :
    (c d : ℕ) (s a b : List ℕ)
    → c ≢ d
    → split_once d s ≡ some (a, b)
    → split_once d (c ∷ s) ≡ some (c ∷ a, b)
unfolding split_once
split_once-past c d s a b h e = rw (differs c d h, split_once, e) refl

split_once_lem : (d : ℕ) (a b : List ℕ) → Lacks d a → split_once d (a ++ d ∷ b) ≡ some (a, b)
split_once_lem d [] b lacks = split_once-here d b
split_once_lem d (c ∷ a) b (h, lacks) =
    split_once-past c d (a ++ d ∷ b) a b h (split_once_lem d a b lacks)

split_once-none :
    (c d : ℕ) (s : List ℕ) → c ≢ d → split_once d s ≡ none → split_once d (c ∷ s) ≡ none
unfolding split_once
split_once-none c d s h e = rw (differs c d h, split_once, e) refl

abbrev pair_or : {A : Type 0} → A → Option A → A
pair_or a none = a
pair_or a (some b) = b

some_pair :
    {A B : Type 0} {a a' : A} {b b' : B}
    → Path (Option (A × B)) (some (a, b)) (some (a', b'))
    → (a ≡ a') × (b ≡ b')
some_pair {A} {B} {a} {b} e =
    (ap (λ o. (pair_or {A = A × B} (a, b) o).0) e, ap (λ o. (pair_or {A = A × B} (a, b) o).1) e)

split_once_sound :
    (d : ℕ) (s a b : List ℕ) → split_once d s ≡ some (a, b) → (s ≡ a ++ d ∷ b) × Lacks d a
unfolding split_once
split_once_sound d [] a b h = cc
split_once_sound d (c ∷ s) a b h = elim (equal_or_not c d) [
  | inl same ↦
      let found : some ([], s) ≡ some (a, b) =
        sym (ap (λ x. split_once d (x ∷ s)) same ∙ split_once-here d s) ∙ h in
      let (nothing, rest) = some_pair found in
      (
        ap (λ x. x ∷ s) same ∙ ap (◌∷◌ d) rest ∙ ap (λ x. x ++ d ∷ b) nothing,
        subst (Lacks d) nothing tt,
      )
  | inr other ↦ elim (Option-cases (split_once d s)) [
    | inl e ↦ absurd (cc (split_once-none c d s other e, h))
    | inr ((a', b'), e) ↦
        let (parts, lacks) = split_once_sound d s a' b' e in
        let (longer, rest) = some_pair (sym (split_once-past c d s a' b' other e) ∙ h) in
        (
          ap (◌∷◌ c) parts ∙ ap (λ x. x ++ d ∷ b') longer ∙ ap (λ x. a ++ d ∷ x) rest,
          subst (Lacks d) longer (other, lacks),
        )
  ]
]

module _ {W : Type 0} (crypto : Crypto W) where
  -- What a stored hash is made of, for the passwords that it accepts.
  abbrev pub IsHashOf : String → List ℕ → Type 0
  IsHashOf password password_hash =
      (salt : List ℕ) × Lacks b'$' salt
      × (password_hash ≡ salt ++ b'$' ∷ crypto.pbkdf2_hex password salt)

  accepted :
      (password : String) (password_hash : List ℕ) (parts : Option (List ℕ × List ℕ))
      → split_once b'$' password_hash ≡ parts
      → check_hash crypto password parts ≡ true
      → IsHashOf password password_hash
  unfolding check_hash
  accepted password password_hash none e h = cc
  accepted password password_hash (some (salt, expected)) e h =
      let (made, lacks) = split_once_sound b'$' password_hash salt expected e in
      (salt, lacks, made ∙ ap (λ x. salt ++ b'$' ∷ x) (sym ((same_codes_iff _ expected).0 h)))

  hash_accepted :
      (password : String) (password_hash : List ℕ)
      → IsHashOf password password_hash
      → verify_password crypto password password_hash ≡ true
  unfolding verify_password check_hash
  hash_accepted password password_hash (salt, lacks, made) =
      ap (check_hash crypto password) (
        ap (split_once b'$') made
        ∙ split_once_lem b'$' salt (crypto.pbkdf2_hex password salt) lacks)
      ∙ (same_codes_iff (crypto.pbkdf2_hex password salt) (crypto.pbkdf2_hex password salt)).1 refl

  -- A stored hash accepts a password just when it is some salt without a `$`, a `$`, and the key that
  -- PBKDF2 derives from the password and that salt; so it accepts the password that it was made from.
  pub verify_password_iff :
      IsCrypto crypto
      → (password : String) (password_hash : List ℕ) (w : W)
      → ((verify_password crypto password password_hash ≡ true) ↔ IsHashOf password password_hash)
        × (verify_password crypto password (hash_password crypto password w).0 ≡ true)
  unfolding verify_password hash_password
  verify_password_iff laws password password_hash w = (
    (
      accepted password password_hash (split_once b'$' password_hash) refl,
      λ h. hash_accepted password password_hash h,
    ),
    hash_accepted password _ ((crypto.token_hex w).0, laws.salt w, refl),
  )
