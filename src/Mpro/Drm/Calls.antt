-- ===== src/Mpro/Drm/Calls.antt =====
-- drm/mpro_drm_pipe.c, drm/mpro_drm_main.c, drm/mpro_drm_sysfs.c and mpro_pm.c: any sequence of calls of
-- the DRM child and of the idle management.
use packages.Base.{
  ℕ, suc, ◌<◌, ◌^◌, ◌≡◌, refl, Bool, true, false, Option, some, List, not, ◌==◌, replicate,
  if-cases, arith,
}
use packages.Mpro.Model.{ModelInfo}
use packages.Mpro.Pm.Device.{Device}
use packages.Mpro.Pm.Work.{
  Answers, idle_work, force_idle, force_active, wake_work, touch_activity, wake_async,
}
use packages.Mpro.Pm.Trace.{
  IsSound, wake_runs, idle_fires, forced_idle, forced_active, touched, woken, Event-IsSound,
}
use packages.Mpro.Drm.Child.{
  Child, Screen, Kernel, IntRect, Plane, Crtc, set_shadow, push, whole, screen_wake,
}
use packages.Mpro.Drm.Kms.{
  vblank_timer, enable_vblank, disable_vblank, pipe_disable, pipe_enable, pipe_update, wake_screen,
}
use packages.Mpro.Drm.Power.{
  pause_vblank, suspend, resume, apply_rotation, turned_sides, with_child,
}
use packages.Mpro.Drm.Held.{IsKept, Each-some, push_kept, same-IsLoose}
use packages.Mpro.Drm.Callbacks.{disable_kept, enable_kept, update_kept}

module _ {S : Type 0} where
  -- One call. The kernel brings a commit with an event only when the one before is answered, enables a
  -- pipe only when it is disabled, and runs the delayed work and the wake work only when they are pending.
  -- A callback of the pipe that faults has no next state.
  pub data Step (s : Screen S) (n : ℕ) : Screen S → ℕ → Type 0 where
    commits : s.event ≡ false → Step s n (record s { event = true }) (suc n)
    enables :
        {t : Screen S} (k : Kernel) (crtc : Crtc) (plane : Option Plane)
        → k.now < 2 ^ 64
        → s.child.active_held ≡ false
        → pipe_enable k crtc plane s ≡ some t
        → Step s n t n
    disables : (k : Kernel) → Step s n (pipe_disable k s) n
    updates :
        {t : Screen S} (k : Kernel) (crtc : Crtc) (plane : Option Plane) (damages : List IntRect)
        → pipe_update k crtc plane damages s ≡ some t
        → Step s n t n
    wakes :
        (k : Kernel) → k.now < 2 ^ 64 → s.device.wake_queued ≡ true → Step s n (wake_screen k s) n
    idles :
        (now : ℕ) (a : Answers)
        → now < 2 ^ 64
        → s.device.idle_armed ≡ true
        → Step s n (record s { device = idle_work now a s.device }) n
    forces_idle :
        (now : ℕ) → now < 2 ^ 64 → Step s n (record s { device = force_idle now s.device }) n
    forces_active :
        (now : ℕ) → now < 2 ^ 64 → Step s n (record s { device = force_active now s.device }) n
    touches : Step s n (record s { device = touch_activity s.device }) n
    asks : Step s n (record s { device = wake_async s.device }) n
    starts_vblank : Step s n (enable_vblank s) n
    stops_vblank : Step s n (disable_vblank s) n
    ticks : Step s n (vblank_timer s).1 n
    suspends : (k : Kernel) → Step s n (suspend k s) n
    resumes : (k : Kernel) → Step s n (resume k s) n
    rotates :
        (k : Kernel) (model : ModelInfo) (rotation : ℕ)
        → Step s n (apply_rotation k model rotation s) n

  pub data Steps (s : Screen S) (n : ℕ) : Screen S → ℕ → Type 0 where
    here : Steps s n s n
    and_then : {t u : Screen S} {m l : ℕ} → Steps s n t m → Step t m u l → Steps s n u l

  module _ (start n : ℕ) where
    device_kept :
        (s : Screen S) (d : Device S)
        → IsSound start d s.child.active_held
        → IsKept start n s
        → IsKept start n (record s { device = d })
    device_kept s d sound h = record {
      loose = record {
        sound = sound;
        timer = h.loose.timer;
        refs = h.loose.refs;
        events = h.loose.events;
      };
      exclusive = h.exclusive;
    }

    child_kept :
        (s : Screen S) (c : Child)
        → c.active_held ≡ s.child.active_held
        → c.drm.blanked ≡ s.child.drm.blanked
        → c.timer_active ≡ c.vblank_enabled
        → IsKept start n s
        → IsKept start n (record s { child = c })
    child_kept s c held blanked timer h = record {
      loose = same-IsLoose start n s c held timer h.loose;
      exclusive = rw (held, blanked) h.exclusive;
    }

    wake_kept : (k : Kernel) (s : Screen S) → IsKept start n s → IsKept start n (screen_wake k s)
    unfolding screen_wake
    wake_kept k s h =
        if-cases (IsKept start n) (not s.child.drm.blanked)
          (λ lit. push_kept start n k (whole s) true s h) (λ dark. h)

    woken_kept :
        (k : Kernel) (s : Screen S)
        → k.now < 2 ^ 64
        → s.device.wake_queued ≡ true
        → IsKept start n s
        → IsKept start n (wake_screen k s)
    unfolding wake_screen
    woken_kept k s now queued h =
        let awake : Screen S = record s { device = wake_work k.now s.device } in
        let awake_ok =
          device_kept s (wake_work k.now s.device)
            (Event-IsSound (wake_runs k.now now queued) h.loose.sound) h in
        if-cases (IsKept start n) s.device.pipe.is_idle (λ idle. wake_kept k awake awake_ok)
          (λ active. awake_ok)

    tick_kept : (s : Screen S) → IsKept start n s → IsKept start n (vblank_timer s).1
    unfolding vblank_timer
    tick_kept s h =
        if-cases (λ (r : Bool × Screen S). IsKept start n r.1) (not s.child.vblank_enabled)
          (λ off.
            child_kept s (record s.child { timer_active = false }) refl refl (ground (arith, off))
              h)
          (λ on. h)

    on_kept : (s : Screen S) → IsKept start n s → IsKept start n (enable_vblank s)
    unfolding enable_vblank
    on_kept s h =
        child_kept s (record s.child { vblank_enabled = true; timer_active = true }) refl refl refl
          h

    off_kept : (s : Screen S) → IsKept start n s → IsKept start n (disable_vblank s)
    unfolding disable_vblank
    off_kept s h =
        child_kept s (record s.child { vblank_enabled = false; timer_active = false }) refl refl
          refl h

    pause_kept : (s : Screen S) → IsKept start n s → IsKept start n (pause_vblank s)
    unfolding pause_vblank disable_vblank
    pause_kept s h =
        let was = s.child.vblank_enabled in
        let noted = record s.child { vblank_was_enabled_pre_suspend = was } in
        if-cases (IsKept start n) was
          (λ on.
            child_kept s (record noted { vblank_enabled = false; timer_active = false }) refl refl
              refl h)
          (λ off. child_kept s noted refl refl h.loose.timer h)

    suspend_kept : (k : Kernel) (s : Screen S) → IsKept start n s → IsKept start n (suspend k s)
    unfolding suspend
    suspend_kept k s h =
        let paused = pause_vblank s in
        let paused_ok = pause_kept s h in
        let wiped = set_shadow (replicate s.child.drm.shadow_size 0) paused in
        let wiped_ok = child_kept paused wiped.child refl refl paused_ok.loose.timer paused_ok in
        let pushed = push k (whole s) false wiped in
        let pushed_ok = push_kept start n k (whole s) false wiped wiped_ok in
        if-cases (IsKept start n) s.child.suspended (λ twice. h)
          (λ first.
            child_kept pushed (record pushed.child { suspended = true }) refl refl
              pushed_ok.loose.timer pushed_ok)

    resume_kept : (k : Kernel) (s : Screen S) → IsKept start n s → IsKept start n (resume k s)
    unfolding resume enable_vblank
    resume_kept k s h =
        let woken = with_child (λ c. record c { suspended = false }) s in
        let woken_ok = child_kept s woken.child refl refl h.loose.timer h in
        let pushed = push k (whole s) false woken in
        let pushed_ok = push_kept start n k (whole s) false woken woken_ok in
        if-cases (IsKept start n) (not s.child.suspended) (λ awake. h)
          (λ was_suspended.
            if-cases (IsKept start n) s.child.vblank_was_enabled_pre_suspend
              (λ on.
                child_kept pushed
                  (record pushed.child { vblank_enabled = true; timer_active = true }) refl refl
                  refl pushed_ok)
              (λ off. pushed_ok))

    rotate_kept :
        (k : Kernel) (model : ModelInfo) (rotation : ℕ) (s : Screen S)
        → IsKept start n s
        → IsKept start n (apply_rotation k model rotation s)
    unfolding apply_rotation
    rotate_kept k model rotation s h =
        let sides = turned_sides model rotation in
        let c : Child = record s.child {
          native_rotation = rotation;
          drm = record s.child.drm {
            width = sides.0;
            height = sides.1;
            shadow = replicate s.child.drm.shadow_size 0;
          };
        } in
        let turned : Screen S = record s { child = c } in
        let turned_ok = child_kept s c refl refl h.loose.timer h in
        if-cases (IsKept start n) (s.child.native_rotation == rotation) (λ same. h)
          (λ new. push_kept start n k (whole turned) false turned turned_ok)

  commit_kept :
      (start n : ℕ) (s : Screen S)
      → s.event ≡ false
      → IsKept start n s
      → IsKept start (suc n) (record s { event = true })
  commit_kept start n s idle h =
      let events = h.loose.events in
      record {
        loose = record {
          sound = h.loose.sound;
          timer = h.loose.timer;
          refs = h.loose.refs;
          events = ground (arith, idle, events);
        };
        exclusive = h.exclusive;
      }

  step_kept :
      {start : ℕ} {s : Screen S} {n : ℕ} {t : Screen S} {m : ℕ}
      → Step s n t m
      → IsKept start n s
      → IsKept start m t
  step_kept {start} {s} {n} (commits idle) h = commit_kept start n s idle h
  step_kept {start} {s} {n} (enables k crtc plane now free e) h =
      (Each-some (λ t. (IsKept start n t) × (t.event ≡ false)) _
        (enable_kept start n k crtc plane s now free h) e).0
  step_kept {start} {s} {n} (disables k) h = (disable_kept start n k s h).0
  step_kept {start} {s} {n} (updates k crtc plane damages e) h =
      (Each-some (λ t. (IsKept start n t) × (t.event ≡ false)) _
        (update_kept start n k crtc plane damages s h) e).0
  step_kept {start} {s} {n} (wakes k now queued) h = woken_kept start n k s now queued h
  step_kept {start} {s} {n} (idles now a before armed) h =
      device_kept start n s _ (Event-IsSound (idle_fires now a before armed) h.loose.sound) h
  step_kept {start} {s} {n} (forces_idle now before) h =
      device_kept start n s _ (Event-IsSound (forced_idle now before) h.loose.sound) h
  step_kept {start} {s} {n} (forces_active now before) h =
      device_kept start n s _ (Event-IsSound (forced_active now before) h.loose.sound) h
  step_kept {start} {s} {n} touches h =
      device_kept start n s _ (Event-IsSound touched h.loose.sound) h
  step_kept {start} {s} {n} asks h = device_kept start n s _ (Event-IsSound woken h.loose.sound) h
  step_kept {start} {s} {n} starts_vblank h = on_kept start n s h
  step_kept {start} {s} {n} stops_vblank h = off_kept start n s h
  step_kept {start} {s} {n} ticks h = tick_kept start n s h
  step_kept {start} {s} {n} (suspends k) h = suspend_kept start n k s h
  step_kept {start} {s} {n} (resumes k) h = resume_kept start n k s h
  step_kept {start} {s} {n} (rotates k model rotation) h = rotate_kept start n k model rotation s h

  -- Over any sequence of commits, callbacks of the pipe, vblank and suspend calls, rotations and
  -- operations of the idle management from a state where it holds: the idle management is sound for the
  -- child's reference, a blanked child holds none, the hrtimer runs exactly while the vblank is enabled,
  -- the driver holds no vblank reference between the calls, and every event of a commit is still to be
  -- answered or was answered exactly once.
  pub Steps-IsKept :
      {start : ℕ} {s : Screen S} {n : ℕ} {t : Screen S} {m : ℕ}
      → IsKept start n s
      → Steps s n t m
      → IsKept start m t
  Steps-IsKept h here = h
  Steps-IsKept h (and_then before step) = step_kept step (Steps-IsKept h before)
