-- ===== src/Scripts/Waiting.antt =====
-- Waiting for a service ends.
use day_trade_intellegence.Core.Action.{Result, err, ok}
use day_trade_intellegence.Prelude.{
  Bool-cases, Option, String, ap, arith, false, inl, inr, ltb, refl, some, suc, zero, ℕ, ◌*◌, ◌+◌,
  ◌/◌, ◌≡◌, ◌≤◌, ◌⊎◌,
}
use day_trade_intellegence.Scripts.{
  Host, after_attempt, microseconds, or_out_of_fuel, timed_out, wait_for_tcp_service, wait_loop,
}

-- Time does not go back, and a sleep lasts as long as it should.
pub record IsClock {W : Type 0} (host : Host W) : Type 0 where
  pub connects :
      (address : String) (port : ℕ) (w : W)
      → host.time w ≤ host.time (host.create_connection address port w).1
  pub sleeps :
      (seconds : ℕ) (w : W) → host.time w + microseconds seconds ≤ host.time (host.sleep seconds w)

enough_rounds :
    (now timeout_seconds : ℕ)
    → now + microseconds timeout_seconds ≤ now + microseconds (2 * (timeout_seconds / 2 + 1))
enough_rounds now timeout_seconds = omega arith

module _ {W : Type 0} (host : Host W) (address : String) (port : ℕ) (name : String) where
  -- The service accepted a connection last; or the deadline has passed; or an attempt raised what is
  -- no `OSError`.
  abbrev pub HasEnded : ℕ → Result (Unit {0}) → W → Type 0
  HasEnded deadline (ok u) v = (w : W) × (host.create_connection address port w ≡ (ok tt, v))
  HasEnded deadline (err exc) v =
      ((exc ≡ timed_out host address port name) × (deadline ≤ host.time v))
      ⊎ ((w : W) × (host.create_connection address port w ≡ (err exc, v))
          × (host.is_os_error exc ≡ false))

  abbrev Ends : ℕ → Option (Result (Unit {0}) × W) → Type 0
  Ends deadline o = (r : Result (Unit {0})) × (v : W) × (o ≡ some (r, v)) × HasEnded deadline r v

  attempt-Ends :
      (deadline : ℕ) (again : W → Option (Result (Unit {0}) × W)) (w : W)
      (x : Result (Unit {0}) × W)
      → host.create_connection address port w ≡ x
      → Ends deadline (again (host.sleep 2 x.1))
      → Ends deadline (after_attempt host again x)
  unfolding after_attempt
  attempt-Ends deadline again w (ok tt, v) e rest = (ok tt, v, refl, (w, e))
  attempt-Ends deadline again w (err exc, v) e rest = elim (Bool-cases (host.is_os_error exc)) [
    | inl h ↦ rw h rest
    | inr h ↦ (err exc, v, rw h refl, inr (w, e, h))
  ]

module _ {W : Type 0} (host : Host W) (clock : IsClock host) (address : String) (port : ℕ)
    (name : String) where
  wait_loop-Ends :
      (deadline k : ℕ) (w : W)
      → deadline ≤ host.time w + microseconds (2 * k)
      → Ends host address port name deadline (wait_loop host address port name deadline (suc k) w)
  unfolding wait_loop
  wait_loop-Ends deadline zero w near = elim (Bool-cases (ltb (host.time w) deadline)) [
    | inr late ↦ (err _, w, rw late refl, inl (refl, ground (arith, late)))
    | inl early ↦ absurd (ground (arith, early, near))
  ]
  wait_loop-Ends deadline (suc k) w near = elim (Bool-cases (ltb (host.time w) deadline)) [
    | inr late ↦ (err _, w, rw late refl, inl (refl, ground (arith, late)))
    | inl early ↦ rw early (
        attempt-Ends host address port name deadline
          (wait_loop host address port name deadline (suc k)) w _ refl
          (wait_loop-Ends deadline k (host.sleep 2 (host.create_connection address port w).1) (
            omega (
              arith,
              clock.connects address port w,
              clock.sleeps 2 (host.create_connection address port w).1,
              near,
            ))))
  ]

  -- If time does not go back and a sleep is as long as it should be, waiting for a service ends,
  -- whatever its timeout: it returns upon a connection that was accepted, or raises `TimeoutError`
  -- once the deadline has passed, or raises the error of an attempt that is no `OSError`.
  pub wait_for_tcp_service_ends :
      (timeout_seconds : ℕ) (w : W)
      → (r : Result (Unit {0})) × (v : W) × (wait_for_tcp_service host address port name
            timeout_seconds w
          ≡ (r, v))
        × HasEnded host address port name (host.time w + microseconds timeout_seconds) r v
  unfolding wait_for_tcp_service
  wait_for_tcp_service_ends timeout_seconds w =
      let (r, v, e, ended) =
        wait_loop-Ends (host.time w + microseconds timeout_seconds) (timeout_seconds / 2 + 1) w
          (enough_rounds (host.time w) timeout_seconds) in
      (r, v, ap (or_out_of_fuel host w) e, ended)
