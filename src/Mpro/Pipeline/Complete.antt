-- ===== src/Mpro/Pipeline/Complete.antt =====
-- mpro_pipeline.c: the two URB completions and the work item that follows them.
use packages.Base.{ℕ, ◌+◌, ◌-◌, ◌/◌, ◌%◌, ◌^◌, min, false, Option, none, some, ◌==◌, if◌then◌else◌}
use packages.Base.Errno.{Ret}
use packages.Mpro.Pipeline.Xfer.{Xfer, Pipe, inc, xfer_free}
use packages.Mpro.Pipeline.Send.{after_submit}

-- The locked section of `mpro_complete_work` and the release of what is done: the transfer to
-- submit next, if there is one.
unfoldable pub complete_enter : Pipe → Option Xfer × Pipe
unfolding xfer_free
complete_enter p =
    let next = if p.running then p.pending_xfer else none in
    elim next [
      | some t ↦ (
        some t,
        xfer_free p.current_xfer (record p { pending_xfer = none; current_xfer = some t }),
      )
      | none ↦
          (none, xfer_free p.current_xfer (record p { current_xfer = none; in_flight = false }))
    ]

-- `mpro_complete_work` when nothing runs between its sections.
unfoldable pub complete_work : Ret → Pipe → Pipe
unfolding complete_enter after_submit
complete_work ret p =
    let (next, q) = complete_enter p in elim next [ none ↦ q | some t ↦ (after_submit ret t q).1 ]

-- The moving average of the frame period: a u32, from the u64 difference of two clock readings.
unfoldable pub ewma_update : ℕ → ℕ → ℕ
ewma_update period delta =
    let d = min delta (2 ^ 32 - 1) in
    if period == 0 then d else (period + 2 ^ 32 - period / 16 + d / 16) % 2 ^ 32

-- `mpro_bulk_complete`: `status` is 0 or the errno of a failed URB, `now` the clock. The work is
-- queued in every case.
unfoldable pub bulk_complete : Ret → ℕ → Pipe → Pipe
unfolding ewma_update
bulk_complete status now p =
    let seen = record p { last_frame_ns = now; stats_displayed = inc p.stats_displayed } in
    let delta = (now + 2 ^ 64 - p.last_frame_ns) % 2 ^ 64 in
    let timed = record seen { ewma_period_ns = ewma_update p.ewma_period_ns delta } in
    if status == 0 then (if p.last_frame_ns == 0 then seen else timed) else p

-- Where a transfer is after `mpro_ctrl_complete`: its bulk URB is out, or the work is queued.
pub data AfterCtrl : Type 0 where
  bulk_submitted : AfterCtrl
  work_queued : AfterCtrl

-- `mpro_ctrl_complete`: the URB's status, and what the submission of the bulk URB returns.
unfoldable pub ctrl_complete : Ret → Ret → AfterCtrl
ctrl_complete status bulk_ret =
    if status == 0 then (if bulk_ret == 0 then bulk_submitted else work_queued) else work_queued
