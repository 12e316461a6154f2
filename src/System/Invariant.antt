-- ===== src/System/Invariant.antt =====
-- What holds in every world that the process reaches.
use day_trade_intellegence.Api.Keeps.{application-Keeps, signal-Keeps}
use day_trade_intellegence.Api.Stable.{reconcile_positions-Keeps, with_session-Keeps}
use day_trade_intellegence.Core.Action.Triple.{Keeps, Keeps-raise, Keeps-try_except}
use day_trade_intellegence.Core.Float.{Float}
use day_trade_intellegence.Dependencies.{Platform, get_reconciliation_service}
use day_trade_intellegence.Prelude.{Bool, refl, ℕ, ◌∙◌, ◌≡◌}
use day_trade_intellegence.System.{Reach, Step, reconcile_positions_task}
use day_trade_intellegence.System.Consistent.{IsConsistent}
use day_trade_intellegence.System.Start.{application_lifespan-Sound}
use day_trade_intellegence.System.Stores.{IsContained, Sound, placed-Sound, stable-Sound}

module _ {F W : Type 0} ⦃fl : Float F⦄ (platform : Platform F W)
    (contained : IsContained platform) where
  task-Sound :
      (live : Bool) (n : ℕ)
      → Keeps (Sound platform contained n) (reconcile_positions_task platform live)
  unfolding reconcile_positions_task get_reconciliation_service
  task-Sound live =
      let stable = stable-Sound platform contained in
      with_session-Keeps platform stable _ λ n.
        Keeps-try_except _ _ (reconcile_positions-Keeps platform stable live n)
          (λ exc. Keeps-raise exc)

  Step-Sound :
      (n : ℕ) {w v : W}
      → Step platform w v
      → Sound platform contained n w
      → Sound platform contained n v
  Step-Sound n (Step.call header fresh request w) h =
      let stable = stable-Sound platform contained in
      let placed = placed-Sound platform contained in
      (application-Keeps platform stable header fresh request
          (λ c trade e. signal-Keeps platform stable placed c trade) n).at
        w h
  Step-Sound n (Step.start w) h = (application_lifespan-Sound platform contained n).at w h
  Step-Sound n (Step.task live w) h = (task-Sound live n).at w h
  Step-Sound n (Step.elapse w v tables opened) (consistent, count) =
      (rw tables consistent, opened ∙ count)

  -- In every world that the process reaches by calls of the API, starts, tasks of the worker and
  -- events outside, whatever raises and also where the database fails, no username and no symbol has
  -- two rows, no two positions have the same key, and as many sessions are open as at first, if the
  -- first world is so.
  pub Reach-IsConsistent :
      (first w : W)
      → Reach platform first w
      → IsConsistent (platform.ext.db.tables first)
      → IsConsistent (platform.ext.db.tables w)
        × (platform.sessions.opened w ≡ platform.sessions.opened first)
  Reach-IsConsistent first w reach consistent = reached reach
    where
      reached :
          {v : W}
          → Reach platform first v
          → Sound platform contained (platform.sessions.opened first) v
      reached Reach.here = (consistent, refl)
      reached (Reach.next r s) = Step-Sound (platform.sessions.opened first) s (reached r)
