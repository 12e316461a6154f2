-- ===== src/Tests/Scripts.antt =====
-- The start of a container, where the world is the clock, in microseconds.
use day_trade_intellegence.Core.Action.{Result, err, ok}
use day_trade_intellegence.Core.Errors.{Error}
use day_trade_intellegence.Core.Float.Fixed.{fixed}
use day_trade_intellegence.Prelude.{
  Bool-cases, arith, if◌then◌else◌, inl, inr, ltb, none, refl, true, ℕ, ◌+◌, ◌≡◌,
}
use day_trade_intellegence.Scripts.{
  Host, after_attempt, microseconds, timed_out, wait_for_tcp_service, wait_loop,
}
use day_trade_intellegence.Scripts.Waiting.{HasEnded, IsClock, wait_for_tcp_service_ends}

-- A service that accepts connections from the fifth second on.
abbrev sim_host : Host ℕ
sim_host = record {
  time = λ w. w;
  sleep = λ seconds w. w + microseconds seconds;
  create_connection = λ address port w.
      if ltb w 5000000 then (err (Error.other "OSError" "refused"), w) else (ok tt, w);
  is_os_error = λ exc. true;
  getenv = λ name. none;
  hostname = λ url. none;
  port = λ url. ok none;
  alembic_upgrade = λ w. (ok tt, w);
}

sim_host-IsClock : IsClock sim_host
sim_host-IsClock = record {
  connects = λ address port w. elim (Bool-cases (ltb w 5000000)) [
    | inl early ↦ rw early (ground arith)
    | inr late ↦ rw late (ground arith)
  ];
  sleeps = λ seconds w. ground arith;
}

waits_until_ready : wait_for_tcp_service sim_host "db" 5432 "database" 60 0 ≡ (ok tt, 6000000)
unfolding wait_for_tcp_service wait_loop after_attempt
waits_until_ready = refl

gives_up :
    wait_for_tcp_service sim_host "db" 5432 "database" 3 0
    ≡ (err (timed_out sim_host "db" 5432 "database"), 4000000)
unfolding wait_for_tcp_service wait_loop after_attempt
gives_up = refl

wait_for_tcp_service_ends_example :
    (r : Result (Unit {0})) × (v : ℕ) × (wait_for_tcp_service sim_host "db" 5432 "database" 60 0
      ≡ (r, v))
    × HasEnded sim_host "db" 5432 "database" 60000000 r v
wait_for_tcp_service_ends_example =
    wait_for_tcp_service_ends sim_host sim_host-IsClock "db" 5432 "database" 60 0
