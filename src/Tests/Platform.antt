-- ===== src/Tests/Platform.antt =====
-- The whole program in a world in memory: the API, its refusals, and the worlds that it reaches.
-- The keys of a table grow: each new key is above the sum of the keys of all positions.
use day_trade_intellegence.Api.{Credentials}
use day_trade_intellegence.Api.Answers.{answer_of, application_answers}
use day_trade_intellegence.Api.Application.{application, is_handled}
use day_trade_intellegence.Api.Check.{IsNeutral}
use day_trade_intellegence.Api.Refused.{Denied, IsRefused, serve-IsRefused}
use day_trade_intellegence.Api.Required.{required}
use day_trade_intellegence.Api.Serve.{Request, serve}
use day_trade_intellegence.Core.Action.{err, ok}
use day_trade_intellegence.Core.Errors.{Error}
use day_trade_intellegence.Core.Float.Fixed.{fixed, ℤ}
use day_trade_intellegence.Db.Factory.{IsCounted, SessionFactory}
use day_trade_intellegence.Db.Models.{Position, Stored, add_row}
use day_trade_intellegence.Db.Session.{IsReliable, IsTransactional, Session, with_position}
use day_trade_intellegence.Dependencies.{Platform}
use day_trade_intellegence.External.{IsSeparated}
use day_trade_intellegence.Prelude.{
  All, List, [], arith, codes, false, if◌then◌else◌, inl, inr, none, refl, same_codes, some, suc,
  true, ℕ, ◌+◌, ◌-◌, ◌<◌, ◌↔◌, ◌∷◌, ◌≡◌, ◌≢◌,
}
use day_trade_intellegence.Security.Access.{api_key_role, bearer_token, resolve_role_from_api_key}
use day_trade_intellegence.Services.Operational.{RedisApi, SystemStatus, get_system_status}
use day_trade_intellegence.Services.Operational.Readiness.{Answers, get_system_status_iff}
use day_trade_intellegence.System.{Reach, Step}
use day_trade_intellegence.System.Consistent.{IsConsistent}
use day_trade_intellegence.System.Invariant.{Reach-IsConsistent}
use day_trade_intellegence.System.Stores.{IsContained}
use day_trade_intellegence.Tests.Security.{sim_crypto}
use day_trade_intellegence.Tests.Simulation.{
  Sim, buy_request, live_market, settings, sim_sql, start,
}

abbrev sum_keys : List (Stored (Position ℤ)) → ℕ
sum_keys [] = 0
sum_keys (row ∷ rows) = row.id + sum_keys rows

abbrev pub keyed_db : Session ℤ Sim
keyed_db = record {
  insert = λ e s. (
    ok tt,
    record s { database = add_row (suc (sum_keys s.database.positions)) 1000 e s.database },
  );
  update_position = λ i p s. (ok tt, record s { database = with_position i 1000 p s.database });
  select = λ s. (ok s.database, s);
  tables = λ s. s.database;
  next_id = λ s. suc (sum_keys s.database.positions);
  now = λ s. 1000;
}

abbrev sim_sessions : SessionFactory Sim
sim_sessions = record {
  open_session = λ s. record s { sessions = s.sessions + 1 };
  close_session = λ s. record s { sessions = s.sessions - 1 };
  select_one = λ s. (ok tt, s);
  opened = λ s. s.sessions;
}

abbrev sim_redis : RedisApi Sim
sim_redis = record { available = true; ping = λ url s. (ok tt, s) }

abbrev pub platform : Platform ℤ Sim
platform = record {
  settings = settings;
  ext = record live_market { db = keyed_db };
  sql = sim_sql;
  crypto = sim_crypto;
  sessions = sim_sessions;
  redis = sim_redis;
  delay = λ live s. (ok "task-1", s);
  migrations = record {
    available = true;
    upgrade_head = λ s. (ok tt, s);
    create_all = λ s. (ok tt, s);
  };
  text = λ salted.
      if same_codes salted (codes "a1$trader123")
      then "a1$trader123"
      else if same_codes salted (codes "a1$operator123")
      then "a1$operator123"
      else "a1$admin123";
}

pub keyed_db-IsTransactional : IsTransactional keyed_db
keyed_db-IsTransactional = record {
  insert_ok = λ e w h. refl;
  insert_err = λ e w x h. cc;
  update_ok = λ i p w h. refl;
  update_err = λ i p w x h. cc;
  select_ok = λ w d h. ground arith;
  select_reads = λ w. refl;
}

pub keyed_db-IsReliable : IsReliable keyed_db
keyed_db-IsReliable = record { inserts = λ e w. refl; updates = λ i p w. refl; selects = λ w. refl }

sim_sessions-IsCounted : IsCounted sim_sessions
sim_sessions-IsCounted = record {
  opened-open = λ w. refl;
  opened-close = λ w. refl;
  opened-select = λ w. refl;
}

above_keys :
    (key : ℕ) (rows : List (Stored (Position ℤ))) → sum_keys rows < key → All (λ u. u.id ≢ key) rows
above_keys key [] h = tt
above_keys key (row ∷ rows) h = (λ e. omega (arith, e), above_keys key rows (omega arith))

pub platform-IsSeparated : IsSeparated platform.ext
platform-IsSeparated = record {
  place_ok = λ symbol action quantity w id e. refl;
  place_err = λ symbol action quantity w e x. cc;
  create_accepted = λ w. refl;
  connect_accepted = λ h p c w. refl;
  summary_accepted = λ w. refl;
  positions_accepted = λ w. refl;
  disconnect_accepted = λ w. refl;
  bars_accepted = λ k t s n f w. refl;
  insert_accepted = λ e w. refl;
  update_accepted = λ i p w. refl;
  select_accepted = λ w. refl;
  create_tables = λ w. refl;
  connect_tables = λ h p c w. refl;
  place_tables = λ symbol action quantity w. refl;
  summary_tables = λ w. refl;
  positions_tables = λ w. refl;
  disconnect_tables = λ w. refl;
  bars_tables = λ k t s n f w. refl;
}

platform-IsContained : IsContained platform
platform-IsContained = record {
  counted = sim_sessions-IsCounted;
  writes = keyed_db-IsTransactional;
  separated = platform-IsSeparated;
  fresh = λ w. above_keys _ w.database.positions (omega arith);
  framed = λ n. record {
    create = λ w h. h;
    connect = λ a b c. record { at = λ w h. h };
    summary = record { at = λ w h. h };
    positions = record { at = λ w h. h };
    disconnect = λ w h. h;
    bars = λ k t s m f. record { at = λ w h. h };
  };
  unwritten = λ n. record {
    insert = λ e. record { at = λ w h. h };
    update = λ i p. record { at = λ w h. h };
    select = record { at = λ w h. h };
  };
  placed = λ n symbol action quantity. record { at = λ w h. h };
  open_tables = λ w. refl;
  close_tables = λ w. refl;
  outside = λ n d. record {
    delayed = λ live. record { at = λ w h. h };
    selected_one = record { at = λ w h. h };
    pinged = λ url. record { at = λ w h. h };
    created = record { at = λ w h. h };
    upgraded = record { at = λ w h. h };
    salted = λ w h. h;
  };
}

pub platform-IsNeutral : IsNeutral platform
platform-IsNeutral = record {
  open_tables = λ w. refl;
  close_tables = λ w. refl;
  open_accepted = λ w. refl;
  close_accepted = λ w. refl;
  open_now = λ w. refl;
}

-- A caller with a key of the settings, and one with a key that no setting has.
abbrev pub trader : Credentials
trader = record { authorization = none; x_api_key = some "trader-local-key" }

abbrev stranger : Credentials
stranger = record { authorization = none; x_api_key = some "guess" }

abbrev traded : Sim
traded = (application platform none "id-1" (Request.signal trader (buy_request false)) start).1

Reach-IsConsistent_example : IsConsistent traded.database × (traded.sessions ≡ 0)
Reach-IsConsistent_example =
    Reach-IsConsistent platform platform-IsContained start traded
      (Reach.next Reach.here
        (Step.call none "id-1" (Request.signal trader (buy_request false)) start))
      (record { one_user = λ u. omega arith; one_position = λ s. omega arith; keyed = tt })

abbrev strange_signal : Request
strange_signal = Request.signal stranger (buy_request false)

stranger-Denied :
    Denied platform platform-IsNeutral platform-IsSeparated keyed_db-IsTransactional
      keyed_db-IsReliable
      (required strange_signal)
      start
unfolding api_key_role resolve_role_from_api_key bearer_token
stranger-Denied role among (inl token) = cc (token.header)
stranger-Denied role among (inr key) = cc (key)

serve-IsRefused_example :
    IsRefused platform platform-IsNeutral platform-IsSeparated keyed_db-IsTransactional
      keyed_db-IsReliable
      (serve platform strange_signal)
      start
serve-IsRefused_example =
    serve-IsRefused platform platform-IsNeutral platform-IsSeparated keyed_db-IsTransactional
      keyed_db-IsReliable strange_signal start stranger-Denied

application_answers_example :
    (application platform (some "corr-7") "id-1" strange_signal start ≡ (
      ok (answer_of platform "corr-7" (serve platform strange_signal start).0),
      (serve platform strange_signal start).1,
    ))
    × ((exc : Error)
        → is_handled exc ≡ false
        → ((answer_of platform "corr-7" (err exc)).status_code ≡ 500)
          × ((answer_of platform "corr-7" (err exc)).request_id ≡ none))
application_answers_example =
    application_answers platform (some "corr-7") "id-1" strange_signal start

get_system_status_iff_example :
    (s : SystemStatus) × ((get_system_status settings sim_sessions sim_redis start).0 ≡ ok s)
    × ((s.is_ready ≡ true) ↔ Answers settings sim_sessions sim_redis start)
    × ((get_system_status settings sim_sessions sim_redis start).1.sessions ≡ 0)
get_system_status_iff_example =
    get_system_status_iff settings sim_sessions sim_redis sim_sessions-IsCounted (λ url v. refl)
      start
