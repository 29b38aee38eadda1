-- ===== src/Mpro/Pm/Refs.antt =====
-- mpro_pm.c: a reference that is taken before `mpro_pm_init` runs. mpro_usb_probe registers the
-- children first and initialises the idle state after them.
use packages.Base.{ℕ, ◌-◌, ◌^◌, ◌≡◌, ◌≢◌, true, false, arith}
use packages.Mpro.Pm.Device.{Device, pm_init}
use packages.Mpro.Pm.Work.{active_get, active_put}

module _ {S : Type 0} (d : Device S) (t u : ℕ) where
  -- The order that counts: the first reference taken after the initialisation, and released, starts
  -- the idle delay, with no reference left.
  pub put-get-init :
      d.fbdev_enabled ≡ false
      → d.idle_delay_ms ≢ 0
      → let (e, held) = active_get u (pm_init t d) in
        let last = (active_put held e).0 in (last.idle_armed ≡ true) × (last.active_refs ≡ 0)
  unfolding pm_init active_get active_put
  put-get-init console delay = ground arith

  -- The order of the probe: where a child takes its reference while the children are registered, the
  -- initialisation forgets it. Its release then brings the counter to -1, and the idle delay does
  -- not start: the backlight stays on.
  pub put-init-get :
      d.active_refs ≡ 0
      → let (e, held) = active_get t d in
        let last = (active_put held (pm_init u e)).0 in
        (last.idle_armed ≡ false) × (last.active_refs ≡ 2 ^ 32 - 1)
  unfolding pm_init active_get active_put
  put-init-get none_held = ground arith
