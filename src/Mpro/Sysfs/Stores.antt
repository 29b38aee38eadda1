-- ===== src/Mpro/Sysfs/Stores.antt =====
-- mpro_sysfs.c and mpro_main.c: the stores, and the work memory of the compressor. A parser of the kernel,
-- such as kstrtoint, answers with a value, or not; a store returns an errno, or 0 where the source returns
-- the count.
use packages.Base.{ℕ, Bool, true, false, Option, none, some, not, ◌&&◌, ◌||◌, ◌==◌, if◌then◌else◌}
use packages.Base.Int.{ℤ, pos, pos_part, ltb_ℤ, leb_ℤ}
use packages.Base.Errno.{Ret, einval, enomem, eopnotsupp}
use packages.Mpro.Pipeline.Xfer.{Pipe}
use packages.Mpro.Pipeline.Alloc.{firmware_supports_lz4, has_margin}
use packages.Mpro.Pm.Device.{Device}
use packages.Mpro.Pm.Work.{force_idle, force_active, go_off}

-- `mpro_lz4_workmem_alloc`; `memory_ok` is what the allocation answers, and `add` the registration of the
-- release, which frees the memory again when it fails.
unfoldable pub lz4_workmem_alloc : Bool → Ret → Pipe → Ret × Pipe
lz4_workmem_alloc memory_ok add p =
    if p.lz4_workmem
    then (0, p)
    else if not memory_ok
    then (enomem, record p { lz4_workmem = false })
    else if not (add == 0)
    then (add, record p { lz4_workmem = false })
    else (0, record p { lz4_workmem = true })

-- The level is stored when the memory is there.
unfoldable pub set_level : ℤ → Ret × Pipe → Ret × Pipe
set_level level (ret, p) = if not (ret == 0) then (ret, p) else (0, record p { lz4_level = level })

-- The module's parameter, clamped.
abbrev clamp_level : ℤ → ℤ
clamp_level v = if ltb_ℤ v (pos 0) then pos 0 else if ltb_ℤ (pos 12) v then pos 12 else v

-- `mpro_setup_lz4`.
unfoldable pub setup_lz4 : ℤ → Bool → Ret → Pipe → Ret × Pipe
setup_lz4 level memory_ok add p =
    if leb_ℤ level (pos 0)
    then (0, p)
    else if has_margin p.model
    then (0, p)
    else if not (firmware_supports_lz4 p.fw_major p.fw_minor)
    then (0, p)
    else set_level (clamp_level level) (lz4_workmem_alloc memory_ok add p)

-- `lz4_level_store`.
unfoldable pub lz4_level_store : Option ℤ → Bool → Ret → Pipe → Ret × Pipe
lz4_level_store none memory_ok add p = (einval, p)
lz4_level_store (some val) memory_ok add p =
    if ltb_ℤ val (pos 0) || ltb_ℤ (pos 12) val
    then (einval, p)
    else if not (ltb_ℤ (pos 0) val)
    then (0, record p { lz4_level = val })
    else if has_margin p.model
    then (eopnotsupp, p)
    else if not (firmware_supports_lz4 p.fw_major p.fw_minor)
    then (eopnotsupp, p)
    else set_level val (lz4_workmem_alloc memory_ok add p)

-- `lz4_threshold_store`.
unfoldable pub lz4_threshold_store : Option ℤ → Pipe → Ret × Pipe
lz4_threshold_store none p = (einval, p)
lz4_threshold_store (some val) p =
    if ltb_ℤ val (pos 0) then (einval, p) else (0, record p { lz4_threshold = pos_part val })

-- What `idle_state_store` compares the text with, by sysfs_streq.
pub data Word : Type 0 where
  idle_word : Word
  active_word : Word
  other_word : Word

module _ {S : Type 0} where
  -- `idle_delay_ms_store`.
  unfoldable pub idle_delay_ms_store : Option ℕ → Device S → Ret × Device S
  idle_delay_ms_store none d = (einval, d)
  idle_delay_ms_store (some val) d = (0, record d { idle_delay_ms = val })

  abbrev force : Bool → ℕ → Device S → Device S
  force val now d = if val then force_active now d else force_idle now d

  -- `idle_state_store`, with the answer of kstrtobool for the same text.
  unfoldable pub idle_state_store : ℕ → Word → Option Bool → Device S → Ret × Device S
  idle_state_store now idle_word parsed d = (0, force false now d)
  idle_state_store now active_word parsed d = (0, force true now d)
  idle_state_store now other_word none d = (einval, d)
  idle_state_store now other_word (some val) d = (0, force val now d)

  -- `touch_wake_store`; the flag `touch_wake_enabled` is beside the device.
  unfoldable pub touch_wake_store : Option Bool → Bool × Device S → Ret × (Bool × Device S)
  touch_wake_store none (wake, d) = (einval, (wake, d))
  touch_wake_store (some val) (wake, d) =
      (0, (val, if not val && d.pipe.is_idle then go_off d else d))

  -- `reset_pm_stats_store`.
  unfoldable pub reset_pm_stats : ℕ → Device S → Device S
  reset_pm_stats now d = record d {
    pm_active_total_ns = 0;
    pm_idle_total_ns = 0;
    pm_state_changed_ns = now;
    pm_idle_count = 0;
    pm_wake_count = 0;
    pm_touch_wake_count = 0;
  }

  unfoldable pub reset_pm_stats_store : ℕ → Option Bool → Device S → Ret × Device S
  reset_pm_stats_store now none d = (einval, d)
  reset_pm_stats_store now (some val) d = (0, if val then reset_pm_stats now d else d)

-- `reset_stats_store`.
unfoldable pub reset_stats : Pipe → Pipe
reset_stats p = record p {
  stats_submitted = 0;
  stats_displayed = 0;
  stats_dropped = 0;
  last_frame_ns = 0;
  ewma_period_ns = 0;
}

unfoldable pub reset_stats_store : Option Bool → Pipe → Ret × Pipe
reset_stats_store none p = (einval, p)
reset_stats_store (some val) p = (0, if val then reset_stats p else p)
