-- ===== src/Mpro/Pm/Trace.antt =====
-- mpro_pm.c over every sequence of its operations. The DRM child is the one holder of an active
-- reference, with `active_held` as its flag; the kernel enables a pipe only when it is disabled.
use packages.Base.{ℕ, ◌+◌, ◌%◌, ◌^◌, ◌<◌, ◌≡◌, refl, Bool, true, false, arith, flag, ◌&&◌}
use packages.Mpro.Pm.Device.{Device}
use packages.Mpro.Pm.Work.{
  Answers, idle_work, active_get, active_put, force_idle, force_active, wake_work, touch_activity,
  wake_async,
}
use packages.Mpro.Pm.Blank.{push_black-IsSame}

module _ {S : Type 0} where
  -- The invariant, for a device that was initialised at the clock reading `start`.
  pub record IsSound (start : ℕ) (d : Device S) (held : Bool) : Type 0 where
    pub refs : d.active_refs ≡ flag held
    pub armed_free : (d.idle_armed && held) ≡ false
    pub armed_console : (d.idle_armed && d.fbdev_enabled) ≡ false
    pub wakes : d.pm_wake_count < 2 ^ 32
    pub counts : d.pm_idle_count ≡ (d.pm_wake_count + flag d.pipe.is_idle) % 2 ^ 32
    pub changed : d.pm_state_changed_ns < 2 ^ 64
    pub times : (d.pm_active_total_ns + d.pm_idle_total_ns + start) % 2 ^ 64 ≡ d.pm_state_changed_ns

  module _ (start now : ℕ) (d : Device S) (before : now < 2 ^ 64) where
    get-IsSound : IsSound start d false → IsSound start (active_get now d).0 (active_get now d).1
    unfolding active_get
    get-IsSound h = ground arith

    force_idle-IsSound :
        (held : Bool) → IsSound start d held → IsSound start (force_idle now d) held
    unfolding force_idle
    force_idle-IsSound held h = ground arith

    force_active-IsSound :
        (held : Bool) → IsSound start d held → IsSound start (force_active now d) held
    unfolding force_active
    force_active-IsSound held h = ground arith

    wake_work-IsSound : (held : Bool) → IsSound start d held → IsSound start (wake_work now d) held
    unfolding wake_work
    wake_work-IsSound held h = ground arith

    idle_work-IsSound :
        (a : Answers) (held : Bool) → IsSound start d held → IsSound start (idle_work now a d) held
    unfolding idle_work
    idle_work-IsSound a held h =
        ground (arith, push_black-IsSame d.pipe.model a (record (d.pipe) { is_idle = true }) refl)

  module _ (start : ℕ) (d : Device S) (held : Bool) (h : IsSound start d held) where
    put-IsSound : IsSound start (active_put held d).0 (active_put held d).1
    unfolding active_put
    put-IsSound = ground arith

    touch_activity-IsSound : IsSound start (touch_activity d) held
    unfolding touch_activity
    touch_activity-IsSound = ground arith

    wake_async-IsSound : IsSound start (wake_async d) held
    unfolding wake_async
    wake_async-IsSound = ground arith

  -- One operation. `enable` and `disable` are the DRM child's pipe; the delayed work and the wake
  -- work run only when they are pending; the others come from sysfs and from touches at any time.
  pub data Event (d : Device S) (held : Bool) : Device S → Bool → Type 0 where
    enable :
        (now : ℕ)
        → now < 2 ^ 64
        → held ≡ false
        → Event d held (active_get now d).0 (active_get now d).1
    disable : Event d held (active_put held d).0 (active_put held d).1
    idle_fires :
        (now : ℕ) (a : Answers)
        → now < 2 ^ 64
        → d.idle_armed ≡ true
        → Event d held (idle_work now a d) held
    wake_runs :
        (now : ℕ) → now < 2 ^ 64 → d.wake_queued ≡ true → Event d held (wake_work now d) held
    forced_idle : (now : ℕ) → now < 2 ^ 64 → Event d held (force_idle now d) held
    forced_active : (now : ℕ) → now < 2 ^ 64 → Event d held (force_active now d) held
    touched : Event d held (touch_activity d) held
    woken : Event d held (wake_async d) held

  pub data History (d : Device S) (held : Bool) : Device S → Bool → Type 0 where
    start : History d held d held
    then : {e f : Device S} {b c : Bool} → History d held e b → Event e b f c → History d held f c

  pub Event-IsSound :
      {first : ℕ} {d : Device S} {b : Bool} {e : Device S} {c : Bool}
      → Event d b e c
      → IsSound first d b
      → IsSound first e c
  Event-IsSound {first} {d} (enable now l free) h = get-IsSound first now d l (rw free at h)
  Event-IsSound {first} {d} {b = b} disable h = put-IsSound first d b h
  Event-IsSound {first} {d} {b = b} (idle_fires now a l e) h = idle_work-IsSound first now d l a b h
  Event-IsSound {first} {d} {b = b} (wake_runs now l e) h = wake_work-IsSound first now d l b h
  Event-IsSound {first} {d} {b = b} (forced_idle now l) h = force_idle-IsSound first now d l b h
  Event-IsSound {first} {d} {b = b} (forced_active now l) h = force_active-IsSound first now d l b h
  Event-IsSound {first} {d} {b = b} touched h = touch_activity-IsSound first d b h
  Event-IsSound {first} {d} {b = b} woken h = wake_async-IsSound first d b h

  -- From a device in which the following holds, it holds after any sequence of operations: `active_refs` is 1 while the DRM pipe holds
  -- its reference and 0 otherwise; the idle delay never runs while the pipe is active, nor in console
  -- mode; each wake follows one idle, so that the two counters differ exactly by the present state;
  -- and the times booked as active and as idle add up to the time since the start, modulo 2^64.
  pub History-IsSound :
      {first : ℕ} {d : Device S} {b : Bool} {e : Device S} {c : Bool}
      → IsSound first d b
      → History d b e c
      → IsSound first e c
  History-IsSound h start = h
  History-IsSound h (then r e) = Event-IsSound e (History-IsSound h r)
