-- ===== src/Core/Action/Triple.antt =====
-- What holds after a call, whether it returned or raised, from what held before: one rule for each
-- way to build an action.
use mathlib.Core.Path.{subst}
use day_trade_intellegence.Core.Action.{
  continue, handle, Action, Result, err, gets, lift, modify, ok, pure, raise, try_except,
  try_finally, ◌>>=◌,
}
use day_trade_intellegence.Core.Errors.{Error}
use day_trade_intellegence.Prelude.{Bool, ap, false, if◌then◌else◌, refl, sym, true, ◌≡◌}

pub record Triple {W A : Type 0} (P : W → Type 0) (m : Action W A) (Q : Result A → W → Type 0)
    : Type 0 where
  pub at : (w : W) → P w → Q (m w).0 (m w).1

-- `m` keeps `P`, whether it returns or raises.
abbrev pub Keeps : {W A : Type 0} → (W → Type 0) → Action W A → Type 0
Keeps P m = Triple P m (λ _. P)

pub Keeps-modify :
    {W : Type 0} {P : W → Type 0} (f : W → W) → ((w : W) → P w → P (f w)) → Keeps P (modify f)
unfolding modify
Keeps-modify f k = record { at = k }

module _ {W A : Type 0} where
  pub Keeps-pure : {P : W → Type 0} (a : A) → Keeps P (pure a)
  unfolding pure
  Keeps-pure a = record { at = λ w h. h }

  pub Keeps-raise : {P : W → Type 0} (e : Error) → Keeps P (raise {A = A} e)
  unfolding raise
  Keeps-raise e = record { at = λ w h. h }

  pub Keeps-lift : {P : W → Type 0} (r : Result A) → Keeps P (lift r)
  unfolding lift
  Keeps-lift r = record { at = λ w h. h }

  pub Keeps-gets : {P : W → Type 0} (f : W → A) → Keeps P (gets f)
  unfolding gets
  Keeps-gets f = record { at = λ w h. h }

  pub Triple-pure :
      {P : W → Type 0} (Q : Result A → W → Type 0) (a : A)
      → ((w : W) → P w → Q (ok a) w)
      → Triple P (pure a) Q
  unfolding pure
  Triple-pure Q a k = record { at = k }

  pub Triple-raise :
      {P : W → Type 0} (Q : Result A → W → Type 0) (e : Error)
      → ((w : W) → P w → Q (err e) w)
      → Triple P (raise e) Q
  unfolding raise
  Triple-raise Q e k = record { at = k }

  pub Triple-lift :
      {P : W → Type 0} (r : Result A) (Q : Result A → W → Type 0)
      → ((w : W) → P w → Q r w)
      → Triple P (lift r) Q
  unfolding lift
  Triple-lift r Q k = record { at = k }

  Triple-handle :
      (Q : Result A → W → Type 0) (R : Result A → W → Type 0) (h : Error → Action W A)
      (r : Result A) (w : W)
      → Q r w
      → ((a : A) (v : W) → Q (ok a) v → R (ok a) v)
      → ((e : Error) → Triple (Q (err e)) (h e) R)
      → R (handle h (r, w)).0 (handle h (r, w)).1
  Triple-handle Q R h (ok a) w q k t = k a w q
  Triple-handle Q R h (err e) w q k t = (t e).at w q

  handle-world :
      (h : Error → Action W A) (r : Result A) (w : W)
      → ((e : Error) (v : W) → (h e v).1 ≡ v)
      → (handle h (r, w)).1 ≡ w
  handle-world h (ok a) w k = refl
  handle-world h (err e) w k = k e w

  -- Where the handler leaves the world alone, so does the `try`.
  pub try_except-world :
      (m : Action W A) (h : Error → Action W A) (w : W)
      → ((e : Error) (v : W) → (h e v).1 ≡ v)
      → (try_except m h w).1 ≡ (m w).1
  unfolding try_except
  try_except-world m h w k = handle-world h (m w).0 (m w).1 k

  pub Triple-try_except :
      {P : W → Type 0} (Q R : Result A → W → Type 0) (m : Action W A) (h : Error → Action W A)
      → Triple P m Q
      → ((a : A) (w : W) → Q (ok a) w → R (ok a) w)
      → ((e : Error) → Triple (Q (err e)) (h e) R)
      → Triple P (try_except m h) R
  unfolding try_except
  Triple-try_except Q R m h t k th = record {
    at = λ w p. Triple-handle Q R h (m w).0 (m w).1 (t.at w p) k th;
  }

  pub Keeps-try_except :
      {P : W → Type 0} (m : Action W A) (h : Error → Action W A)
      → Keeps P m
      → ((e : Error) → Keeps P (h e))
      → Keeps P (try_except m h)
  Keeps-try_except {P} m h t th = Triple-try_except (λ _. P) (λ _. P) m h t (λ a w p. p) th

  pub Triple-try_finally :
      {P : W → Type 0} (Q R : Result A → W → Type 0) (m : Action W A) (f : W → W)
      → Triple P m Q
      → ((r : Result A) (w : W) → Q r w → R r (f w))
      → Triple P (try_finally m f) R
  unfolding try_finally
  Triple-try_finally Q R m f t k = record { at = λ w p. k (m w).0 (m w).1 (t.at w p) }

  pub Keeps-try_finally :
      {P : W → Type 0} (m : Action W A) (f : W → W)
      → Keeps P m
      → ((w : W) → P w → P (f w))
      → Keeps P (try_finally m f)
  unfolding try_finally
  Keeps-try_finally m f t k = record { at = λ w p. k (m w).1 (t.at w p) }

  pub Triple-if :
      {P : W → Type 0} {Q : Result A → W → Type 0} (b : Bool) (m n : Action W A)
      → (b ≡ true → Triple P m Q)
      → (b ≡ false → Triple P n Q)
      → Triple P (if b then m else n) Q
  Triple-if true m n tm tn = tm refl
  Triple-if false m n tm tn = tn refl

  pub Keeps-if :
      {P : W → Type 0} (b : Bool) (m n : Action W A)
      → Keeps P m
      → Keeps P n
      → Keeps P (if b then m else n)
  Keeps-if b m n km kn = Triple-if b m n (λ _. km) (λ _. kn)

  pub Triple-post :
      {P : W → Type 0} (Q R : Result A → W → Type 0) (m : Action W A)
      → Triple P m Q
      → ((r : Result A) (w : W) → Q r w → R r w)
      → Triple P m R
  Triple-post Q R m t k = record { at = λ w p. k (m w).0 (m w).1 (t.at w p) }

module _ {W A B : Type 0} where
  Triple-continue :
      (Q : Result A → W → Type 0) (R : Result B → W → Type 0) (f : A → Action W B) (r : Result A)
      (w : W)
      → Q r w
      → ((a : A) → Triple (Q (ok a)) (f a) R)
      → ((e : Error) (v : W) → Q (err e) v → R (err e) v)
      → R (continue f (r, w)).0 (continue f (r, w)).1
  Triple-continue Q R f (ok a) w q t k = (t a).at w q
  Triple-continue Q R f (err e) w q t k = k e w q

  pub Triple-bind :
      {P : W → Type 0} (Q : Result A → W → Type 0) (R : Result B → W → Type 0) (m : Action W A)
      (f : A → Action W B)
      → Triple P m Q
      → ((a : A) → Triple (Q (ok a)) (f a) R)
      → ((e : Error) (w : W) → Q (err e) w → R (err e) w)
      → Triple P (m >>= f) R
  unfolding ◌>>=◌
  Triple-bind Q R m f tm tf k = record {
    at = λ w p. Triple-continue Q R f (m w).0 (m w).1 (tm.at w p) tf k;
  }

  pub Keeps-bind :
      {P : W → Type 0} (m : Action W A) (f : A → Action W B)
      → Keeps P m
      → ((a : A) → Keeps P (f a))
      → Keeps P (m >>= f)
  Keeps-bind {P} m f km kf = Triple-bind (λ _. P) (λ _. P) m f km kf (λ e w p. p)

  -- The rest of a block may use that a pure step did not raise.
  pub Triple-bind-lift :
      {P : W → Type 0} (R : Result B → W → Type 0) (r : Result A) (f : A → Action W B)
      → ((a : A) → r ≡ ok a → Triple P (f a) R)
      → ((e : Error) (w : W) → r ≡ err e → P w → R (err e) w)
      → Triple P (lift r >>= f) R
  unfolding ◌>>=◌
  Triple-bind-lift R (ok a) f tf k = record { at = λ w p. (tf a refl).at w p }
  Triple-bind-lift R (err e) f tf k = record { at = λ w p. k e w refl p }

-- The call returns, and `Q` holds then.
abbrev pub Returns : {W A : Type 0} → (W → Type 0) → Result A → W → Type 0
Returns Q (ok a) w = Q w
Returns Q (err e) w = ⊥

pub Triple-then :
    {W A B : Type 0} {P Q : W → Type 0} (R : Result B → W → Type 0) (m : Action W A)
    (f : A → Action W B)
    → Triple P m (Returns Q)
    → ((a : A) → Triple Q (f a) R)
    → Triple P (m >>= f) R
Triple-then {Q} R m f tm tf = Triple-bind (Returns Q) R m f tm tf (λ e w h. absurd h)

-- The call returns `a`, and `Q` holds then.
abbrev pub Gives : {W A : Type 0} → A → (W → Type 0) → Result A → W → Type 0
Gives a Q r w = (r ≡ ok a) × Q w

abbrev value_or : {A : Type 0} → A → Result A → A
value_or a (ok b) = b
value_or a (err e) = a

pub Triple-gives :
    {W A B : Type 0} {P Q : W → Type 0} (R : Result B → W → Type 0) (a : A) (m : Action W A)
    (f : A → Action W B)
    → Triple P m (Gives a Q)
    → Triple Q (f a) R
    → Triple P (m >>= f) R
Triple-gives {Q} R a m f tm tf =
    Triple-bind (Gives a Q) R m f tm
      (λ b. record {
        at = λ w h. subst (λ c. R (f c w).0 (f c w).1) (sym (ap (value_or a) h.0)) (tf.at w h.1);
      })
      (λ e w h. cc (h.0))

-- A block whose steps keep `P` until it ends, where an exception may end it at any step.
module _ {W B : Type 0} {P : W → Type 0} (R : Result B → W → Type 0)
    (stops : (e : Error) (w : W) → P w → R (err e) w) where
  pub Triple-step :
      {A : Type 0} (m : Action W A) (f : A → Action W B)
      → Keeps P m
      → ((a : A) → Triple P (f a) R)
      → Triple P (m >>= f) R
  Triple-step m f km tf = Triple-bind (λ _. P) R m f km tf stops

  pub Triple-step_lift :
      {A : Type 0} (r : Result A) (f : A → Action W B)
      → ((a : A) → r ≡ ok a → Triple P (f a) R)
      → Triple P (lift r >>= f) R
  Triple-step_lift r f tf = Triple-bind-lift R r f tf (λ e w _ p. stops e w p)

pub ruleset keeps_rules = (
  Keeps-if, Keeps-pure, Keeps-raise, Keeps-lift, Keeps-gets, Keeps-modify, Keeps-bind,
  Keeps-try_except, Keeps-try_finally,
)
