-- ===== src/Services/Connections.antt =====
-- The connections to the broker that app/services opens, and their end.
use day_trade_intellegence.Core.Action.{Action, Result, modify, try_finally, ◌>>=◌, ◌>>◌}
use day_trade_intellegence.Core.Action.Triple.{Keeps, Keeps-if, Keeps-pure, Keeps-raise, Triple}
use day_trade_intellegence.Core.Float.{Float}
use day_trade_intellegence.Core.Settings.{Settings}
use day_trade_intellegence.Domain.Trading.{SignalAction}
use day_trade_intellegence.External.{External}
use day_trade_intellegence.Prelude.{Bool, Bool-cases, String, false, inl, inr, ℕ, ◌≡◌}
use day_trade_intellegence.Services.Execution.{execute_order}
use day_trade_intellegence.Services.Portfolio.{
  build_live_snapshot, build_paper_snapshot, get_portfolio_snapshot, release,
}

module _ {F W : Type 0} ⦃fl : Float F⦄ (settings : Settings F) (ext : External F W)
    (disconnects : (w : W) → ext.ib.is_connected (ext.ib.disconnect w) ≡ false) where
  abbrev pub IsDisconnected : W → Type 0
  IsDisconnected w = ext.ib.is_connected w ≡ false

  abbrev Disconnected : {A : Type 0} → Result A → W → Type 0
  Disconnected r w = IsDisconnected w

  abbrev Whatever : {A : Type 0} → Result A → W → Type 0
  Whatever r w = Unit

  release_disconnects : (w : W) → IsDisconnected (release ext.ib w)
  unfolding release
  release_disconnects w = elim (Bool-cases (ext.ib.is_connected w)) [
    | inl e ↦ rw e (disconnects w)
    | inr e ↦ rw e e
  ]

  -- Whatever a session does, it ends without a connection.
  session-Disconnected :
      {A : Type 0} (m : Action W A)
      → Triple IsDisconnected
          (modify ext.ib.create >> try_finally m (release ext.ib))
          (Disconnected {A = A})
  unfolding modify ◌>>=◌ try_finally
  session-Disconnected m = record { at = λ w h. release_disconnects _ }

  execute_order-Disconnected :
      (symbol : String) (action : SignalAction) (quantity : ℕ) (dry_run : Bool)
      → Keeps IsDisconnected (execute_order settings ext symbol action quantity dry_run)
  unfolding execute_order
  execute_order-Disconnected symbol action quantity dry_run =
      search (Keeps-if, Keeps-pure, Keeps-raise, session-Disconnected)

  paper-Disconnected : Keeps IsDisconnected (build_paper_snapshot settings ext)
  unfolding build_paper_snapshot
  paper-Disconnected = record { at = λ w h. h }

  snapshot-Disconnected :
      (use_live_data : Bool)
      → Keeps IsDisconnected (get_portfolio_snapshot settings ext use_live_data)
  unfolding get_portfolio_snapshot build_live_snapshot
  snapshot-Disconnected use_live_data =
      search (Keeps-if, Keeps-raise, session-Disconnected, paper-Disconnected)

  -- Where disconnecting ends a connection, an account snapshot and an order that start without a
  -- connection to the broker also end without one, whether they return or raise.
  pub services_disconnect :
      (symbol : String) (action : SignalAction) (quantity : ℕ) (flag : Bool) (w : W)
      → ext.ib.is_connected w ≡ false
      → (ext.ib.is_connected (execute_order settings ext symbol action quantity flag w).1 ≡ false)
        × (ext.ib.is_connected (get_portfolio_snapshot settings ext flag w).1 ≡ false)
  services_disconnect symbol action quantity flag w h = (
    (execute_order-Disconnected symbol action quantity flag).at w h,
    (snapshot-Disconnected flag).at w h,
  )
