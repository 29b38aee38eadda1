-- ===== src/Mpro/Pipeline/FramePeriod.antt =====
-- mpro_pipeline.c: the moving average of the frame period.
use packages.Base.{ℕ, ◌+◌, ◌^◌, ◌≤◌, ◌<◌, max, arith, ◌*◌}
use packages.Mpro.Pipeline.Complete.{ewma_update}

-- The average is a u32 that never wraps: after any update it is below 2^32, it is at most the larger
-- of the old average and the new period, and the new period moves it: 16 times the new average
-- differs from 15 times the old one plus the period by less than 16.
pub ewma_update_bounds :
    (period delta : ℕ)
    → period < 2 ^ 32
    → 0 < period
    → delta < 2 ^ 32
    → let next = ewma_update period delta in
      (next < 2 ^ 32)
      × (next ≤ max period delta + 1)
      × (15 * period + delta < 16 * next + 16)
      × (16 * next < 15 * period + delta + 16)
unfolding ewma_update
ewma_update_bounds period delta hp pp hd = ground arith
