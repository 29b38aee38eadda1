-- ===== src/Mpro/Touch/Gate.antt =====
-- touchscreen and mpro_touch.c: when the interrupt URB runs, and the release watchdog.
use packages.Base.{ℕ, ◌≡◌, Bool, true, false, List, not, ◌&&◌, ◌||◌, ◌==◌, arith}
use packages.Base.Errno.{Ret}
use packages.Mpro.Model.{ModelInfo}
use packages.Mpro.Pm.Device.{Device}
use packages.Mpro.Touch.Urb.{TouchUrb, is_fatal, irq_complete, touch_start}
use packages.Mpro.Touch.Input.{
  Input, release_timeout, handle_packet, resync, input_open, input_close, screen_off, screen_on,
}

-- The URB is with the host exactly while `touch_submitted` is set, and only if it was allocated; the
-- watchdog runs exactly while a touch is active.
pub record IsConsistent (t : Input) : Type 0 where
  pub tracked : t.urb.in_host ≡ t.urb.submitted
  pub allocated : (t.urb.submitted && not t.urb.urb) ≡ false
  pub watched : t.timer ≡ t.any_active

-- Is the URB to run?
abbrev pub should_run : Input → Bool
should_run t = t.opened && (t.screen_on || t.wake)

resync-IsConsistent : (ret : Ret) (t : Input) → IsConsistent t → IsConsistent (resync ret t)
unfolding resync
resync-IsConsistent ret t h = ground arith

-- Each callback of the child keeps the URB and its flag, and the watchdog and its flag, together.
pub callbacks-IsConsistent :
    {S : Type 0} (ret : Ret) (m : ModelInfo) (r : ℕ) (bytes : List ℕ) (t : Input) (d : Device S)
    → IsConsistent t
    → IsConsistent (input_open ret t)
      × IsConsistent (input_close ret t d).0
      × IsConsistent (screen_off ret t)
      × IsConsistent (screen_on ret t)
      × IsConsistent (handle_packet m r bytes t d).0
      × IsConsistent (release_timeout t).0
unfolding input_open input_close screen_off screen_on handle_packet release_timeout
callbacks-IsConsistent ret m r bytes t d h = ground arith

-- A completion of the URB, which the host held, keeps its flag with it; a fatal status or a failed
-- submission leaves it stopped, and then a start submits it again.
pub irq_complete-restart :
    (status ret : Ret) (u : TouchUrb)
    → u.in_host ≡ true
    → u.submitted ≡ true
    → u.urb ≡ true
    → let v = irq_complete status ret u in
      (v.in_host ≡ v.submitted)
      × (v.submitted ≡ (not (is_fatal status) && ret == 0))
      × ((touch_start 0 v).0.in_host ≡ true)
unfolding irq_complete touch_start
irq_complete-restart status ret u host sub urb = ground arith

-- Opening the input, and the screen coming on, start the URB exactly when it should run, if the
-- submission succeeds; closing the input always stops it.
pub gate_lem :
    {S : Type 0} (t : Input) (d : Device S)
    → IsConsistent t
    → t.urb.urb ≡ true
    → ((input_open 0 t).urb.in_host ≡ should_run (input_open 0 t))
      × ((screen_on 0 t).urb.in_host ≡ should_run (screen_on 0 t))
      × ((input_close 0 t d).0.urb.in_host ≡ false)
unfolding input_open input_close screen_on
gate_lem t d h urb = ground arith
