-- ===== src/Mpro/Touch/Input.antt =====
-- touchscreen/mpro_touchscreen.c: the child's state and its callbacks.
use packages.Base.{ℕ, Bool, true, false, List, [], ◌∷◌, ◌&&◌, ◌||◌, if◌then◌else◌}
use packages.Base.Errno.{Ret}
use packages.Mpro.Model.{ModelInfo}
use packages.Mpro.Pm.Device.{Device}
use packages.Mpro.Pm.Work.{touch_activity, wake_async}
use packages.Mpro.Touch.Packet.{Report, slot_state, sync_frame, packet_reports}
use packages.Mpro.Touch.Urb.{TouchUrb, touch_start, touch_stop}

-- `struct mpro_touch` with the parent's URB; `timer` says that the release watchdog runs.
-- `wake` is the parent's `touch_wake_enabled`.
pub record Input : Type 0 where
  pub opened : Bool
  pub screen_on : Bool
  pub timer : Bool
  pub any_active : Bool
  pub wake : Bool
  pub urb : TouchUrb

-- Both slots released: `mpro_ts__release_timeout` and `mpro_ts__input_close`.
abbrev pub release_all : List Report
release_all = slot_state 0 false ∷ slot_state 1 false ∷ sync_frame ∷ []

-- `mpro_ts__release_timeout`, when the watchdog expires.
unfoldable pub release_timeout : Input → Input × List Report
release_timeout t = (record t { timer = false; any_active = false }, release_all)

-- `mpro_ts__handle_packet` after the reports.
unfoldable pub watchdog : Bool → Input → Input
watchdog active t =
    if active
    then record t { any_active = true; timer = true }
    else if t.any_active
    then record t { any_active = false; timer = false }
    else t

unfoldable pub wake_on_touch : {S : Type 0} → Bool → Input → Device S → Device S
unfolding touch_activity wake_async
wake_on_touch active t d =
    if active && (t.wake && t.opened)
    then (if d.pipe.is_idle then wake_async (touch_activity d) else touch_activity d)
    else d

unfoldable pub handle_packet :
    {S : Type 0} → ModelInfo → ℕ → List ℕ → Input → Device S → Input × Device S × List Report
unfolding packet_reports watchdog wake_on_touch
handle_packet m r bytes t d =
    let (reports, active) = packet_reports m r bytes in
    (watchdog active t, wake_on_touch active t d, reports)

-- `mpro_ts__resync`; `ret` is what a submission returns.
unfoldable pub resync : Ret → Input → Input
unfolding touch_start touch_stop
resync ret t =
    if t.opened && (t.screen_on || t.wake)
    then record t { urb = (touch_start ret t.urb).0 }
    else record t { urb = touch_stop t.urb }

-- `mpro_ts__input_open`.
unfoldable pub input_open : Ret → Input → Input
unfolding resync
input_open ret t = resync ret (record t { opened = true })

-- `mpro_ts__input_close`, with the idle countdown that it restarts.
unfoldable pub input_close : {S : Type 0} → Ret → Input → Device S → Input × Device S × List Report
unfolding resync touch_activity
input_close ret t d =
    let closed = resync ret (record t { opened = false }) in
    (
      record closed { timer = false; any_active = false },
      if d.pipe.is_idle then d else touch_activity d,
      release_all,
    )

-- `mpro_ts__screen_off` and `mpro_ts__screen_on`.
unfoldable pub screen_off : Ret → Input → Input
unfolding resync
screen_off ret t = if t.wake && t.opened then t else resync ret (record t { screen_on = false })

unfoldable pub screen_on : Ret → Input → Input
unfolding resync
screen_on ret t = resync ret (record t { screen_on = true })
