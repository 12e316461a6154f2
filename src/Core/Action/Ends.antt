-- ===== src/Core/Action/Ends.antt =====
-- How a call ends, from any world: what holds of the value that it returns, or of the exception that
-- it raises.
use day_trade_intellegence.Core.Action.{
  handle, continue, Action, Result, err, lift, ok, pure, raise, try_except, try_finally, ◌>>=◌,
}
use day_trade_intellegence.Core.Action.Triple.{Keeps, Triple}
use day_trade_intellegence.Core.Errors.{Error}
use day_trade_intellegence.Prelude.{Bool, false, if◌then◌else◌, refl, true, ◌≡◌}

abbrev pub Outcome : {A : Type 0} → (A → Type 0) → (Error → Type 0) → Result A → Type 0
Outcome Q E (ok a) = Q a
Outcome Q E (err e) = E e

pub Outcome-weaken :
    {A : Type 0} (Q : A → Type 0) (E E' : Error → Type 0) (r : Result A)
    → Outcome Q E r
    → ((e : Error) → E e → E' e)
    → Outcome Q E' r
Outcome-weaken Q E E' (ok a) o k = o
Outcome-weaken Q E E' (err e) o k = k e o

pub Outcome-ok :
    {A : Type 0} (Q : A → Type 0) (E : Error → Type 0) (r : Result A) {a : A}
    → r ≡ ok a
    → Q a
    → Outcome Q E r
Outcome-ok Q E r e q = rw e q

pub record Ends {W A : Type 0} (Q : A → Type 0) (E : Error → Type 0) (m : Action W A) : Type 0 where
  pub at : (w : W) → Outcome Q E (m w).0

module _ {W A : Type 0} {Q : A → Type 0} {E : Error → Type 0} where
  pub Ends-pure : (a : A) → Q a → Ends {W = W} Q E (pure a)
  unfolding pure
  Ends-pure a q = record { at = λ w. q }

  pub Ends-raise : (e : Error) → E e → Ends {W = W} Q E (raise e)
  unfolding raise
  Ends-raise e x = record { at = λ w. x }

  pub Ends-lift : (r : Result A) → Outcome Q E r → Ends {W = W} Q E (lift r)
  unfolding lift
  Ends-lift r o = record { at = λ w. o }

  pub Ends-if :
      (b : Bool) (m n : Action W A)
      → (b ≡ true → Ends Q E m)
      → (b ≡ false → Ends Q E n)
      → Ends Q E (if b then m else n)
  Ends-if true m n em en = em refl
  Ends-if false m n em en = en refl

  Ends-handle :
      (E' : Error → Type 0) (h : Error → Action W A) (r : Result A) (w : W)
      → Outcome Q E' r
      → ((e : Error) → E' e → Ends Q E (h e))
      → Outcome Q E (handle h (r, w)).0
  Ends-handle E' h (ok a) w o k = o
  Ends-handle E' h (err e) w o k = (k e o).at w

  pub Ends-try_except :
      (E' : Error → Type 0) (m : Action W A) (h : Error → Action W A)
      → Ends Q E' m
      → ((e : Error) → E' e → Ends Q E (h e))
      → Ends Q E (try_except m h)
  unfolding try_except
  Ends-try_except E' m h em k = record { at = λ w. Ends-handle E' h (m w).0 (m w).1 (em.at w) k }

  pub Ends-try_finally : (m : Action W A) (f : W → W) → Ends Q E m → Ends Q E (try_finally m f)
  unfolding try_finally
  Ends-try_finally m f em = record { at = λ w. em.at w }

  pub Ends-weaken :
      (E' : Error → Type 0) (m : Action W A) → Ends Q E m → ((e : Error) → E e → E' e) → Ends Q E' m
  Ends-weaken E' m em k = record { at = λ w. Outcome-weaken Q E E' (m w).0 (em.at w) k }

  -- What a call keeps and how it ends, together.
  pub Triple-Ends :
      (P : W → Type 0) (m : Action W A)
      → Keeps P m
      → Ends Q E m
      → Triple P m (λ r w. P w × Outcome Q E r)
  Triple-Ends P m km em = record { at = λ w p. (km.at w p, em.at w) }

module _ {W A B : Type 0} {Q : B → Type 0} {E : Error → Type 0} where
  Ends-continue :
      (Q' : A → Type 0) (f : A → Action W B) (r : Result A) (w : W)
      → Outcome Q' E r
      → ((a : A) → Q' a → Ends Q E (f a))
      → Outcome Q E (continue f (r, w)).0
  Ends-continue Q' f (ok a) w o k = (k a o).at w
  Ends-continue Q' f (err e) w o k = o

  pub Ends-bind :
      (Q' : A → Type 0) (m : Action W A) (f : A → Action W B)
      → Ends Q' E m
      → ((a : A) → Q' a → Ends Q E (f a))
      → Ends Q E (m >>= f)
  unfolding ◌>>=◌
  Ends-bind Q' m f em k = record { at = λ w. Ends-continue Q' f (m w).0 (m w).1 (em.at w) k }

-- Nothing is said of the value, or of the exception.
abbrev pub Anything : {A : Type 0} → A → Type 0
Anything a = Unit

pub Outcome-Anything : {A : Type 0} (r : Result A) → Outcome Anything Anything r
Outcome-Anything (ok a) = tt
Outcome-Anything (err e) = tt

pub Ends-any : {W A : Type 0} (m : Action W A) → Ends Anything Anything m
Ends-any m = record { at = λ w. Outcome-Anything (m w).0 }
