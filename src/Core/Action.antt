-- ===== src/Core/Action.antt =====
-- Calls that may raise, and calls that also act on the world outside the program. What was done
-- before an exception stays done, so the world comes back beside the exception too.
pub mod Triple
pub mod Ends
pub mod Recover
use day_trade_intellegence.Core.Errors.{Error}
use day_trade_intellegence.Prelude.{inl, inr, refl, ◌≡◌, ◌⊎◌}

pub data Result (A : Type 0) : Type 0 where
  ok : A → Result A
  err : Error → Result A

pub Result-cases :
    {A : Type 0} (r : Result A) → ((a : A) × (r ≡ ok a)) ⊎ ((e : Error) × (r ≡ err e))
Result-cases (ok a) = inl (a, refl)
Result-cases (err e) = inr (e, refl)

abbrev pub Action : Type 0 → Type 0 → Type 0
Action W A = W → Result A × W

-- The chain of two pure steps.
abbrev pub and_then : {A B : Type 0} → Result A → (A → Result B) → Result B
and_then (ok a) f = f a
and_then (err e) f = err e

-- a call that cannot raise and returns nothing of use
unfoldable pub modify : {W : Type 0} → (W → W) → Action W (Unit {0})
modify f w = (ok tt, f w)

module _ {W A : Type 0} where
  unfoldable pub pure : A → Action W A
  pure a w = (ok a, w)

  unfoldable pub raise : Error → Action W A
  raise e w = (err e, w)

  unfoldable pub lift : Result A → Action W A
  lift r w = (r, w)

  unfoldable pub gets : (W → A) → Action W A
  gets f w = (ok (f w), w)

  -- `try: m`, `except Exception as exc: h`
  abbrev handle : (Error → Action W A) → Result A × W → Result A × W
  handle h (ok a, w) = (ok a, w)
  handle h (err e, w) = h e w

  unfoldable pub try_except : Action W A → (Error → Action W A) → Action W A
  unfolding pure raise lift gets
  try_except m h w = handle h (m w)

  -- `try: m`, `finally: f`, where `f` does not raise
  unfoldable pub try_finally : Action W A → (W → W) → Action W A
  try_finally m f w = let (r, w') = m w in (r, f w')

module _ {W A B : Type 0} where
  abbrev continue : (A → Action W B) → Result A × W → Result B × W
  continue f (ok a, w) = f a w
  continue f (err e, w) = (err e, w)

  infixl 5 ◌>>=◌ ◌>>◌
  -- opening this opens `pure`, `raise`, `lift`, `gets` and `modify` too
  unfoldable pub ◌>>=◌ : Action W A → (A → Action W B) → Action W B
  unfolding pure raise lift gets modify
  ◌>>=◌ m f w = continue f (m w)

  abbrev pub ◌>>◌ : Action W A → Action W B → Action W B
  m >> n = m >>= λ _. n
