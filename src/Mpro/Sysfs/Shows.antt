-- ===== src/Mpro/Sysfs/Shows.antt =====
-- mpro_sysfs.c: the values that the attributes print, as numbers; the texts around them are left out.
use packages.Base.{ℕ, ◌*◌, ◌/◌, ◌%◌, ◌^◌, Bool, Option, none, some, not, ◌==◌, ltb, if◌then◌else◌}
use packages.Base.Int.{ℤ}
use packages.Mpro.Model.{ModelInfo}
use packages.Mpro.Pipeline.Xfer.{Pipe}
use packages.Mpro.Pipeline.Alloc.{firmware_supports_lz4, has_margin}
use packages.Mpro.Pm.Device.{Device, sub64}

-- The attributes of the model: the numbers, or the text for an unknown model.
unfoldable pub resolution_show : Option ModelInfo → Option (ℕ × ℕ)
resolution_show none = none
resolution_show (some m) = some (m.width, m.height)

unfoldable pub physical_size_show : Option ModelInfo → Option (ℕ × ℕ)
physical_size_show none = none
physical_size_show (some m) = some (m.width_mm, m.height_mm)

unfoldable pub margin_show : Option ModelInfo → Option ℕ
margin_show none = none
margin_show (some m) = some m.margin

-- `lz4_level_show`: one of two texts, or the level.
pub data Level : Type 0 where
  margin_device : Level
  firmware_too_old : Level
  level : ℤ → Level

unfoldable pub lz4_level_show : Pipe → Level
lz4_level_show p =
    if has_margin p.model
    then margin_device
    else if not (firmware_supports_lz4 p.fw_major p.fw_minor)
    then firmware_too_old
    else level p.lz4_level

-- Is the last frame older than two seconds?
abbrev pub is_stale : ℕ → ℕ → Bool
is_stale now last = ltb 2000000000 (sub64 now last)

-- `fps_x100` of `fps_show`, 0 for the text "0.00"; and cut to 32 bits that of `stats_show`.
unfoldable pub fps_x100 : ℕ → Pipe → ℕ
fps_x100 now p =
    if p.last_frame_ns == 0
    then 0
    else if is_stale now p.last_frame_ns
    then 0
    else if p.ewma_period_ns == 0
    then 0
    else 100000000000 / p.ewma_period_ns

-- Two numbers with a dot between them, as `%llu.%02llu` prints them.
abbrev pub hundredths : ℕ → ℕ × ℕ
hundredths n = (n / 100, n % 100)

unfoldable pub fps_show : ℕ → Pipe → ℕ × ℕ
fps_show now p = hundredths (fps_x100 now p)

-- `efficiency` of `stats_show`.
unfoldable pub efficiency : Pipe → ℕ
efficiency p =
    if ltb 0 p.stats_submitted then p.stats_displayed * 10000 / p.stats_submitted % 2 ^ 32 else 0

pub record Stats : Type 0 where
  pub submitted : ℕ
  pub displayed : ℕ
  pub dropped : ℕ
  pub fps : ℕ × ℕ
  pub percent : ℕ × ℕ

unfoldable pub stats_show : ℕ → Pipe → Stats
stats_show now p = record {
  submitted = p.stats_submitted;
  displayed = p.stats_displayed;
  dropped = p.stats_dropped;
  fps = hundredths (fps_x100 now p % 2 ^ 32);
  percent = hundredths (efficiency p);
}

-- `pm_stats_show`.
pub record PmStats : Type 0 where
  pub idle : Bool
  pub active_time_ms : ℕ
  pub idle_time_ms : ℕ
  pub current_state_time_ms : ℕ
  pub idle_transitions : ℕ
  pub wake_transitions : ℕ
  pub touch_wakes : ℕ

unfoldable pub pm_stats_show : {S : Type 0} → ℕ → Device S → PmStats
pm_stats_show now d = record {
  idle = d.pipe.is_idle;
  active_time_ms = d.pm_active_total_ns / 1000000;
  idle_time_ms = d.pm_idle_total_ns / 1000000;
  current_state_time_ms = sub64 now d.pm_state_changed_ns / 1000000;
  idle_transitions = d.pm_idle_count;
  wake_transitions = d.pm_wake_count;
  touch_wakes = d.pm_touch_wake_count;
}
