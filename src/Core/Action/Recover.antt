-- ===== src/Core/Action/Recover.antt =====
-- What a block and a `try` come to, once it is known whether the first call returned.
use day_trade_intellegence.Core.Action.{
  Action, Result, continue, err, handle, ok, pure, raise, try_except, ◌>>=◌, ◌>>◌,
}
use day_trade_intellegence.Core.Errors.{Error}
use day_trade_intellegence.Prelude.{refl, ◌≡◌}

-- `a`, or the value for the exception.
abbrev pub recovered : {A B : Type 0} → A → (Error → A) → Result B → A
recovered a f (ok b) = a
recovered a f (err e) = f e

module _ {W A B : Type 0} (a : A) (f : Error → A) where
  recover_pair :
      (x : Result B × W)
      → handle (λ exc. pure (f exc)) (continue (λ _. pure a) x) ≡ (ok (recovered a f x.0), x.1)
  unfolding pure
  recover_pair (ok b, w) = refl
  recover_pair (err e, w) = refl

  pub try_recover :
      (m : Action W B) (w : W)
      → try_except (m >> pure a) (λ exc. pure (f exc)) w ≡ (ok (recovered a f (m w).0), (m w).1)
  unfolding try_except ◌>>=◌ pure
  try_recover m w = recover_pair (m w)

module _ {W A B : Type 0} (m : Action W A) (f : A → Action W B) (w : W) where
  pub bind_ok : (a : A) → (m w).0 ≡ ok a → (m >>= f) w ≡ f a (m w).1
  unfolding ◌>>=◌
  bind_ok a h = rw (h, ◌>>=◌) refl

  pub bind_err : (e : Error) → (m w).0 ≡ err e → (m >>= f) w ≡ (err e, (m w).1)
  unfolding ◌>>=◌
  bind_err e h = rw (h, ◌>>=◌) refl

module _ {W A B : Type 0} (m : Action W A) (f : A → Action W B) (w : W) where
  -- A block that returned has had its first call return.
  pub bind_returned :
      {b : B} → ((m >>= f) w).0 ≡ ok b → (a : A) × ((m w).0 ≡ ok a) × ((f a (m w).1).0 ≡ ok b)
  unfolding ◌>>=◌
  bind_returned {b} h = continued (m w) h
    where
      continued :
          (x : Result A × W)
          → (continue f x).0 ≡ ok b
          → (a : A) × (x.0 ≡ ok a) × ((f a x.1).0 ≡ ok b)
      continued (ok a, v) h = (a, refl, h)
      continued (err e, v) h = cc

module _ {W A : Type 0} (m : Action W A) (exc : Error → Error) (w : W) where
  -- A `try` that returned has not entered a handler that raises.
  pub try_returned : {a : A} → (try_except m (λ e. raise (exc e)) w).0 ≡ ok a → (m w).0 ≡ ok a
  unfolding try_except raise
  try_returned {a} h = handled (m w) h
    where
      handled : (x : Result A × W) → (handle (λ e. raise (exc e)) x).0 ≡ ok a → x.0 ≡ ok a
      handled (ok b, v) h = h
      handled (err e, v) h = cc

pub ok_injective : {A : Type 0} {a b : A} → ok a ≡ ok b → a ≡ b
ok_injective h = cc

module _ {W A : Type 0} (m : Action W A) (handler : Error → Action W A) (w : W) where
  pub try_ok : (a : A) → (m w).0 ≡ ok a → try_except m handler w ≡ (ok a, (m w).1)
  unfolding try_except
  try_ok a h = rw (h, try_except) refl

  pub try_err : (e : Error) → (m w).0 ≡ err e → try_except m handler w ≡ handler e (m w).1
  unfolding try_except
  try_err e h = rw (h, try_except) refl

module _ {W A B : Type 0} where
  -- Changing the value that comes back changes no world.
  pub bind_pure : (m : Action W A) (f : A → B) (w : W) → ((m >>= λ a. pure (f a)) w).1 ≡ (m w).1
  unfolding ◌>>=◌ pure
  bind_pure m f w = continued (m w)
    where
      continued : (x : Result A × W) → (continue (λ a. pure (f a)) x).1 ≡ x.1
      continued (ok a, v) = refl
      continued (err e, v) = refl
