-- ===== src/Mpro/Pm/Work.antt =====
-- mpro_pm.c: the operations of the idle management, each run without interruption. `now` is the
-- clock reading that the operation makes, if it makes one.
use packages.Base.{
  ℕ, ◌+◌, ◌-◌, ◌*◌, ◌%◌, ◌^◌, Bool, true, false, Option, none, some, replicate, not, ◌&&◌, ◌||◌,
  ◌==◌, ltb, if◌then◌else◌,
}
use packages.Base.Errno.{Ret}
use packages.Mpro.Model.{ModelInfo}
use packages.Mpro.Pipeline.Xfer.{Pipe}
use packages.Mpro.Pipeline.Alloc.{Memory, Compressor}
use packages.Mpro.Pipeline.Frame.{send_full_frame}
use packages.Mpro.Screen.Listeners.{notify_off, notify_on, notify_wake}
use packages.Mpro.Pm.Device.{Device, set_idle, record_transition}

-- What the kernel answers while a black frame is sent: does `kzalloc` succeed, what do the
-- allocators of the pipeline answer, what does the submission return, and the compressor.
pub record Answers : Type 0 where
  pub black_ok : Bool
  pub memory : Memory
  pub submit_ret : Ret
  pub lz4 : Compressor

-- The black frame of `mpro_idle_work`, for the model that the device has.
unfoldable pub push_black : Option ModelInfo → Answers → Pipe → Pipe
push_black none a p = p
push_black (some m) a p =
    let size = m.width * m.height * 2 in
    if a.black_ok
    then (send_full_frame a.lz4 a.submit_ret a.memory (some (replicate size 0)) size p).1
    else p

module _ {S : Type 0} where
  abbrev pub go_off : Device S → Device S
  go_off d = record d { children = notify_off d.listeners d.children }

  abbrev pub go_on : Device S → Device S
  go_on d = record d { children = notify_on d.listeners d.children }

  abbrev pub go_wake : Device S → Device S
  go_wake d = record d { children = notify_wake d.listeners d.children }

  -- `mpro_idle_work`, when the delay has passed.
  unfoldable pub idle_work : ℕ → Answers → Device S → Device S
  unfolding record_transition
  idle_work now a d =
      let fired = record d { idle_armed = false } in
      let idle = set_idle true (record_transition now true false fired) in
      if d.pipe.is_idle
      then fired
      else go_off (record idle { pipe = push_black idle.pipe.model a idle.pipe })

  -- The locked section that leaves the idle state, and the notification after it.
  unfoldable pub leave_idle : ℕ → Bool → Device S → Device S
  unfolding record_transition
  leave_idle now touch d =
      if d.pipe.is_idle
      then go_on (set_idle false (record_transition now false touch d))
      else set_idle false d

  -- `mpro_active_get`; the caller's `*held` becomes true.
  unfoldable pub active_get : ℕ → Device S → Device S × Bool
  unfolding leave_idle
  active_get now d =
      let counted = record d { active_refs = (d.active_refs + 1) % 2 ^ 32 } in
      if d.fbdev_enabled
      then (counted, true)
      else (leave_idle now false (record counted { idle_armed = false }), true)

  -- `mpro_active_put` with the caller's `*held`.
  unfoldable pub active_put : Bool → Device S → Device S × Bool
  active_put held d =
      let refs = (d.active_refs + 2 ^ 32 - 1) % 2 ^ 32 in
      let counted = record d { active_refs = refs } in
      if not held
      then (d, held)
      else if not (refs == 0)
      then (counted, false)
      else if d.fbdev_enabled || d.idle_delay_ms == 0
      then (counted, false)
      else (record counted { idle_armed = true }, false)

  -- `mpro_pm_force_idle`.
  unfoldable pub force_idle : ℕ → Device S → Device S
  unfolding record_transition
  force_idle now d =
      let quiet = record d { idle_armed = false } in
      if d.pipe.is_idle
      then quiet
      else go_off (set_idle true (record_transition now true false quiet))

  -- `mpro_pm_force_active`.
  unfoldable pub force_active : ℕ → Device S → Device S
  unfolding leave_idle
  force_active now d = leave_idle now false (record d { idle_armed = false })

  -- `mpro_wake_work`, from the workqueue. `atomic_t` is signed: only 0 counts as no reference.
  unfoldable pub wake_work : ℕ → Device S → Device S
  unfolding leave_idle
  wake_work now d =
      let taken = record d { wake_queued = false } in
      let awake = go_wake (leave_idle now true taken) in
      if not d.pipe.is_idle
      then taken
      else if not d.fbdev_enabled && (ltb 0 d.idle_delay_ms && d.active_refs == 0)
      then record awake { idle_armed = true }
      else awake

  -- `mpro_pm_touch_activity`; `active_refs > 0` is a comparison of a signed number.
  unfoldable pub touch_activity : Device S → Device S
  touch_activity d =
      if d.fbdev_enabled || d.idle_delay_ms == 0
      then d
      else if ltb 0 d.active_refs && ltb d.active_refs (2 ^ 31)
      then d
      else record d { idle_armed = true }

  -- `mpro_pm_wake_async`.
  unfoldable pub wake_async : Device S → Device S
  wake_async d = if not d.pipe.is_idle then d else record d { wake_queued = true }
