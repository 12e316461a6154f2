-- ===== src/Tests/FirstStart.antt =====
-- A first start in the world in memory, and the login of the administrator.
use day_trade_intellegence.Api.Routes
use mathlib.Core.Path.{subst}
use day_trade_intellegence.Bootstrap.Local.{LocalUser, local, local_users}
use day_trade_intellegence.Core.Action.{ok}
use day_trade_intellegence.Core.Float.Fixed.{fixed}
use day_trade_intellegence.Domain.Auth.{TokenResponse}
use day_trade_intellegence.Prelude.{
  IsAmong, List, String, codes, inl, inr, refl, same_codes, sym, ℕ, ◌≡◌,
}
use day_trade_intellegence.Security.Passwords.{hash_password}
use day_trade_intellegence.System.{application_lifespan}
use day_trade_intellegence.System.FirstStart.{IsCreated, first_login}
use day_trade_intellegence.Tests.Platform.{
  keyed_db-IsReliable, keyed_db-IsTransactional, platform, platform-IsNeutral,
}
use day_trade_intellegence.Tests.Security.{sim-IsCrypto, sim_crypto}
use day_trade_intellegence.Tests.Simulation.{Sim, start}

abbrev text_of : String → Sim → List ℕ
text_of password w = (hash_password sim_crypto password w).0

printed :
    (s : LocalUser) (w : Sim)
    → IsAmong s local_users
    → codes (platform.text (text_of s.password w)) ≡ text_of s.password w
unfolding hash_password same_codes
printed s w (inl e) =
    subst (λ u. codes (platform.text (text_of u.password w)) ≡ text_of u.password w) (sym e) refl
printed s w (inr (inl e)) =
    subst (λ u. codes (platform.text (text_of u.password w)) ≡ text_of u.password w) (sym e) refl
printed s w (inr (inr (inl e))) =
    subst (λ u. codes (platform.text (text_of u.password w)) ≡ text_of u.password w) (sym e) refl
printed s w (inr (inr (inr left))) = absurd left

platform-IsCreated : IsCreated platform
platform-IsCreated = record { succeeds = λ w. refl; unwritten = λ w. refl }

abbrev started : Sim
started = (application_lifespan platform start).1

first_login_example :
    ((application_lifespan platform start).0 ≡ ok tt)
    × ((response : TokenResponse) × ((Routes.login_route platform "admin" "admin123" started).0
          ≡ ok response)
        × (response.user.role ≡ "ADMIN"))
first_login_example =
    first_login platform sim-IsCrypto platform-IsCreated platform-IsNeutral keyed_db-IsTransactional
      keyed_db-IsReliable (λ w. refl) printed refl refl start started refl refl
      (local "admin" "admin123" "ADMIN") (inr (inr (inl refl)))
