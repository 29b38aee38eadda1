-- ===== src/Mpro/Sysfs/Stats.antt =====
-- mpro_sysfs.c and mpro_pm.c together: the statistics after they are reset, and the delay that is changed
-- while it runs.
use packages.Base.{ℕ, ◌+◌, ◌%◌, ◌^◌, ◌<◌, ◌≡◌, refl, Bool, true, false, some, arith, flag}
use packages.Mpro.Pm.Device.{Device}
use packages.Mpro.Pm.Work.{
  Answers, idle_work, active_get, active_put, force_idle, force_active, wake_work, touch_activity,
  wake_async,
}
use packages.Mpro.Pm.Blank.{idle_work-black_dropped, push_black-IsSame}
use packages.Mpro.Pm.Trace.{
  Event, enable, disable, idle_fires, wake_runs, forced_idle, forced_active, touched, woken,
  History, start, then,
}
use packages.Mpro.Sysfs.Stores.{reset_pm_stats, idle_delay_ms_store}

module _ {S : Type 0} where
  -- The transitions since a reset, at which the device was idle or not.
  record IsCounted (was : Bool) (d : Device S) : Type 0 where
    idles : d.pm_idle_count < 2 ^ 32
    wakes : d.pm_wake_count < 2 ^ 32
    counts :
        (d.pm_idle_count + flag was) % 2 ^ 32 ≡ (d.pm_wake_count + flag d.pipe.is_idle) % 2 ^ 32

  module _ (was : Bool) (d : Device S) (h : IsCounted was d) where
    get-IsCounted : (now : ℕ) → IsCounted was (active_get now d).0
    unfolding active_get
    get-IsCounted now = ground (arith, h)

    put-IsCounted : (held : Bool) → IsCounted was (active_put held d).0
    unfolding active_put
    put-IsCounted held = ground (arith, h)

    force_idle-IsCounted : (now : ℕ) → IsCounted was (force_idle now d)
    unfolding force_idle
    force_idle-IsCounted now = ground (arith, h)

    force_active-IsCounted : (now : ℕ) → IsCounted was (force_active now d)
    unfolding force_active
    force_active-IsCounted now = ground (arith, h)

    wake-IsCounted : (now : ℕ) → IsCounted was (wake_work now d)
    unfolding wake_work
    wake-IsCounted now = ground (arith, h)

    idle-IsCounted : (now : ℕ) (a : Answers) → IsCounted was (idle_work now a d)
    unfolding idle_work
    idle-IsCounted now a =
        ground
          (arith, h, push_black-IsSame d.pipe.model a (record (d.pipe) { is_idle = true }) refl)

    touch-IsCounted : IsCounted was (touch_activity d)
    unfolding touch_activity
    touch-IsCounted = ground (arith, h)

    async-IsCounted : IsCounted was (wake_async d)
    unfolding wake_async
    async-IsCounted = ground (arith, h)

  Event-IsCounted :
      {was : Bool} {d : Device S} {b : Bool} {e : Device S} {c : Bool}
      → Event d b e c
      → IsCounted was d
      → IsCounted was e
  Event-IsCounted {was} {d} (enable now l free) h = get-IsCounted was d h now
  Event-IsCounted {was} {d} {b = b} disable h = put-IsCounted was d h b
  Event-IsCounted {was} {d} (idle_fires now a l e) h = idle-IsCounted was d h now a
  Event-IsCounted {was} {d} (wake_runs now l e) h = wake-IsCounted was d h now
  Event-IsCounted {was} {d} (forced_idle now l) h = force_idle-IsCounted was d h now
  Event-IsCounted {was} {d} (forced_active now l) h = force_active-IsCounted was d h now
  Event-IsCounted {was} {d} touched h = touch-IsCounted was d h
  Event-IsCounted {was} {d} woken h = async-IsCounted was d h

  history-IsCounted :
      {was : Bool} {d : Device S} {b : Bool} {e : Device S} {c : Bool}
      → History d b e c
      → IsCounted was d
      → IsCounted was e
  history-IsCounted start h = h
  history-IsCounted (then r e) h = Event-IsCounted e (history-IsCounted r h)

  reset-IsCounted : (now : ℕ) (d : Device S) → IsCounted d.pipe.is_idle (reset_pm_stats now d)
  unfolding reset_pm_stats
  reset-IsCounted now d = ground arith

  -- After the statistics of the idle management are reset, and any sequence of its operations, the
  -- transitions to idle are as many as those from idle and the present state call for, modulo 2^32, less
  -- one for ever if the device was idle at the reset.
  pub reset_pm_stats-History :
      (now : ℕ) (d : Device S) {b : Bool} {e : Device S} {c : Bool}
      → History (reset_pm_stats now d) b e c
      → (e.pm_idle_count + flag d.pipe.is_idle) % 2 ^ 32
        ≡ (e.pm_wake_count + flag e.pipe.is_idle) % 2 ^ 32
  reset_pm_stats-History now d history = (history-IsCounted history (reset-IsCounted now d)).counts

  -- Switching the idle delay off by storing 0 does not stop a delay that runs: when it has passed, an
  -- active device goes idle all the same.
  pub idle_delay_ms_store-armed :
      (now : ℕ) (a : Answers) (val : ℕ) (d : Device S)
      → d.idle_armed ≡ true
      → d.pipe.is_idle ≡ false
      → let e = (idle_delay_ms_store (some val) d).1 in
        (e.idle_delay_ms ≡ val) × (e.idle_armed ≡ true) × ((idle_work now a e).pipe.is_idle ≡ true)
  unfolding idle_delay_ms_store
  idle_delay_ms_store-armed now a val d armed active =
      (refl, armed, (idle_work-black_dropped now a (record d { idle_delay_ms = val }) active).0)
