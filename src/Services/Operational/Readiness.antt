-- ===== src/Services/Operational/Readiness.antt =====
-- When the service reports that the system is ready.
use day_trade_intellegence.Core.Action.{Result, err, ok, pure, try_finally, ◌>>=◌}
use day_trade_intellegence.Core.Action.Recover.{recovered, try_recover}
use day_trade_intellegence.Core.Errors.{message}
use day_trade_intellegence.Core.Settings.{Settings}
use day_trade_intellegence.Db.Factory.{IsCounted, SessionFactory, with_session}
use day_trade_intellegence.Prelude.{
  Bool, String, ap, arith, false, refl, sym, true, ◌&&◌, ◌↔◌, ◌∙◌, ◌≡◌,
}
use day_trade_intellegence.Services.Operational.{
  Probe, RedisApi, SystemStatus, check_database, check_redis, get_system_status, reachable,
  system_status, unreachable,
}

is_ok : {A : Type 0} → Result A → Bool
is_ok (ok a) = true
is_ok (err e) = false

is_ok_iff : (r : Result (Unit {0})) → (is_ok r ≡ true) ↔ (r ≡ ok tt)
unfolding is_ok
is_ok_iff (ok tt) = (λ h. refl, λ h. refl)
is_ok_iff (err e) = (λ h. cc, λ h. cc)

-- The flag of a probe that recovered from any exception.
flag_of :
    {B : Type 0}
    → (url : String) (r : Result B)
    → (recovered (reachable url) (λ exc. unreachable url (message exc)) r).ok_flag ≡ is_ok r
unfolding is_ok reachable unreachable
flag_of url (ok b) = refl
flag_of url (err e) = refl

and_iff : (a b : Bool) → (a && b ≡ true) ↔ ((a ≡ true) × (b ≡ true))
and_iff true b = (λ h. (refl, h), λ h. h.1)
and_iff false b = (λ h. cc, λ h. cc)

module _ {F W : Type 0} (settings : Settings F) (sessions : SessionFactory W)
    (redis : RedisApi W) where
  -- The probes succeed: of the database at `w`, and then of Redis.
  abbrev pub Answers : W → Type 0
  Answers w =
      ((sessions.select_one (sessions.open_session w)).0 ≡ ok tt)
      × (redis.available ≡ true)
      × ((redis.ping settings.redis_url
            (sessions.close_session (sessions.select_one (sessions.open_session w)).1)).0
          ≡ ok tt)

  abbrev database_probe : W → Probe
  database_probe w =
      recovered (reachable settings.database_url)
        (λ exc. unreachable settings.database_url (message exc))
        (sessions.select_one (sessions.open_session w)).0

  abbrev after_database : W → W
  after_database w = sessions.close_session (sessions.select_one (sessions.open_session w)).1

  check_database_lem :
      (w : W) → check_database settings sessions redis w ≡ (ok (database_probe w), after_database w)
  unfolding check_database with_session try_finally
  check_database_lem w =
      rw
        (try_recover (reachable settings.database_url)
          (λ exc. unreachable settings.database_url (message exc)) sessions.select_one
          (sessions.open_session w))
        refl

  -- What the probe of Redis finds, and the world after it.
  abbrev redis_probe : Bool → W → Result Probe × W
  redis_probe false v = (ok (unreachable settings.redis_url "redis package unavailable"), v)
  redis_probe true v = (
    ok (
        recovered (reachable settings.redis_url)
          (λ exc. unreachable settings.redis_url (message exc))
          (redis.ping settings.redis_url v).0),
    (redis.ping settings.redis_url v).1,
  )

  check_redis_lem :
      (v : W) (b : Bool)
      → redis.available ≡ b
      → check_redis settings sessions redis v ≡ redis_probe b v
  unfolding check_redis pure
  check_redis_lem v true e = rw e (
      try_recover (reachable settings.redis_url)
        (λ exc. unreachable settings.redis_url (message exc)) (redis.ping settings.redis_url) v)
  check_redis_lem v false e = rw e refl

  -- The whole answer, from what the probe of Redis found.
  status_pair :
      (w : W) (b : Bool)
      → redis.available ≡ b
      → let (r, v) = redis_probe b (after_database w) in
        (s : Probe) × (r ≡ ok s)
        × (get_system_status settings sessions redis w
            ≡ (ok (system_status settings sessions redis (database_probe w) s), v))
  unfolding get_system_status pure ◌>>=◌
  status_pair w true e =
      (_, refl, rw (check_database_lem w, check_redis_lem (after_database w) true e) refl)
  status_pair w false e =
      (_, refl, rw (check_database_lem w, check_redis_lem (after_database w) false e) refl)

  redis_flag :
      (v : W) (b : Bool) (s : Probe)
      → (redis_probe b v).0 ≡ ok s
      → (s.ok_flag ≡ true) ↔ ((b ≡ true) × ((redis.ping settings.redis_url v).0 ≡ ok tt))
  unfolding unreachable
  redis_flag v true s e =
      let found = is_ok_iff (redis.ping settings.redis_url v).0 in
      let same : s.ok_flag ≡ is_ok (redis.ping settings.redis_url v).0 =
        cc (e, flag_of settings.redis_url (redis.ping settings.redis_url v).0) in
      (λ h. (refl, found.0 (sym same ∙ h)), λ h. same ∙ found.1 (h.1))
  redis_flag v false s e = (λ h. cc (e, h), λ h. cc (h.0))

  -- Whatever the probes raise, the service answers, and it closes the session that it opened. It
  -- reports the system as ready just when the database answers and then Redis, whose client is
  -- installed, where a ping of Redis opens and closes no session.
  pub get_system_status_iff :
      IsCounted sessions
      → ((url : String) (v : W) → sessions.opened (redis.ping url v).1 ≡ sessions.opened v)
      → (w : W)
      → (s : SystemStatus) × ((get_system_status settings sessions redis w).0 ≡ ok s)
        × ((s.is_ready ≡ true) ↔ Answers w)
        × (sessions.opened (get_system_status settings sessions redis w).1 ≡ sessions.opened w)
  unfolding system_status
  get_system_status_iff counted pinged w =
      let (s, probed, whole) = status_pair w redis.available refl in
      let database = is_ok_iff (sessions.select_one (sessions.open_session w)).0 in
      let flag = flag_of settings.database_url (sessions.select_one (sessions.open_session w)).0 in
      let cached = redis_flag (after_database w) redis.available s probed in
      let both = and_iff (database_probe w).ok_flag s.ok_flag in
      (
        system_status settings sessions redis (database_probe w) s,
        ap (λ p. p.0) whole,
        (
          λ h.
              let (up, cache) = both.0 h in
              let (installed, ping) = cached.0 cache in
              (database.0 (sym flag ∙ up), installed, ping),
          λ (up, installed, ping). both.1 (flag ∙ database.1 up, cached.1 (installed, ping)),
        ),
        rw whole (probed_opened redis.available),
      )
    where
      closed : sessions.opened (after_database w) ≡ sessions.opened w
      closed = omega (
        arith,
        counted.opened-close (sessions.select_one (sessions.open_session w)).1,
        counted.opened-select (sessions.open_session w),
        counted.opened-open w,
      )

      probed_opened :
          (b : Bool) → sessions.opened (redis_probe b (after_database w)).1 ≡ sessions.opened w
      probed_opened true = pinged _ _ ∙ closed
      probed_opened false = closed
