-- ===== src/Mpro/Pm/Device.antt =====
-- mpro_pm.c and mpro.h: the device as the idle management sees it, and the bookkeeping of a change
-- of state.
use packages.Base.{ℕ, ◌+◌, ◌-◌, ◌%◌, ◌^◌, Bool, false, List, not, ◌&&◌, if◌then◌else◌}
use packages.Mpro.Pipeline.Xfer.{Pipe, inc}
use packages.Mpro.Screen.Listeners.{Listener}

-- The fields of `struct mpro_device` that mpro_pm.c reads and writes; `is_idle` is in `pipe`. `S` is
-- the state of the child drivers. `idle_armed` and `wake_queued` say that the delayed `idle_work`
-- and the `wake_work` are pending.
pub record Device (S : Type 0) : Type 0 where
  pub pipe : Pipe
  pub listeners : List (Listener S)
  pub children : S
  pub idle_armed : Bool
  pub wake_queued : Bool
  pub active_refs : ℕ
  pub fbdev_enabled : Bool
  pub idle_delay_ms : ℕ
  pub pm_active_total_ns : ℕ
  pub pm_idle_total_ns : ℕ
  pub pm_state_changed_ns : ℕ
  pub pm_idle_count : ℕ
  pub pm_wake_count : ℕ
  pub pm_touch_wake_count : ℕ

-- u64 addition and subtraction.
abbrev pub add64 : ℕ → ℕ → ℕ
add64 a b = (a + b) % 2 ^ 64

abbrev pub sub64 : ℕ → ℕ → ℕ
sub64 a b = (a + 2 ^ 64 - b) % 2 ^ 64

module _ {S : Type 0} where
  abbrev pub set_idle : Bool → Device S → Device S
  set_idle b d = record d { pipe = record (d.pipe) { is_idle = b } }

  -- `mpro_pm_record_transition`, at the clock reading `now`.
  unfoldable pub record_transition : ℕ → Bool → Bool → Device S → Device S
  record_transition now new_idle touch_wake d =
      let idle = d.pipe.is_idle in
      let elapsed = sub64 now d.pm_state_changed_ns in
      record d {
        pm_idle_total_ns = if idle then add64 d.pm_idle_total_ns elapsed else d.pm_idle_total_ns;
        pm_active_total_ns =
            if idle then d.pm_active_total_ns else add64 d.pm_active_total_ns elapsed;
        pm_state_changed_ns = now;
        pm_idle_count = if not idle && new_idle then inc d.pm_idle_count else d.pm_idle_count;
        pm_wake_count = if idle && not new_idle then inc d.pm_wake_count else d.pm_wake_count;
        pm_touch_wake_count =
            if idle && not new_idle && touch_wake
            then inc d.pm_touch_wake_count
            else d.pm_touch_wake_count;
      }

  -- `mpro_pm_init`; the counters are zero from the allocation of the device.
  unfoldable pub pm_init : ℕ → Device S → Device S
  pm_init now d = record (set_idle false d) {
    idle_armed = false;
    wake_queued = false;
    active_refs = 0;
    pm_state_changed_ns = now;
  }

  -- `mpro_pm_shutdown`.
  unfoldable pub pm_shutdown : Device S → Device S
  pm_shutdown d = record d { idle_armed = false; wake_queued = false }
