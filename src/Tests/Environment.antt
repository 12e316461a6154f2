-- ===== src/Tests/Environment.antt =====
-- The settings of an environment without variables.
use day_trade_intellegence.Core.Action.{err, lift, ok, pure, ◌>>=◌}
use day_trade_intellegence.Core.Errors.{Error}
use day_trade_intellegence.Core.Float.Fixed.{fixed, ℤ}
use day_trade_intellegence.Core.Settings.Environment.{Environment, get_settings, validated}
use day_trade_intellegence.Prelude.{if◌then◌else◌, inr, none, refl, some, str_eq, ◌≡◌}
use day_trade_intellegence.Tests.Simulation.{settings, start}

abbrev empty_environment : Environment ℤ
empty_environment = record {
  lookup = λ alias. none;
  read_int = λ text. inr "no integer";
  read_float = λ text. inr "no number";
  read_bool = λ text. inr "no Boolean";
}

defaults :
    (get_settings empty_environment start).0
    ≡ ok (record settings {
      environment = "development";
      alpaca_api_key = "";
      alpaca_secret_key = "";
    })
unfolding get_settings ◌>>=◌ lift pure
defaults = refl

-- a port that is no number
refused :
    (get_settings
      (record empty_environment {
        lookup = λ alias. if str_eq alias "IBKR_PORT" then some "seven" else none;
      })
      start).0
    ≡ err (Error.other "ValidationError" "no integer")
unfolding get_settings ◌>>=◌ lift validated
refused = refl
