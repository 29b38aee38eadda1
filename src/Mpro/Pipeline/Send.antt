-- ===== src/Mpro/Pipeline/Send.antt =====
-- mpro_pipeline.c: `mpro_send_xfer`, section by section.
use packages.Base.{true, false, none, some, not, if◌then◌else◌, ◌==◌}
use packages.Base.Errno.{Ret, eshutdown}
use packages.Mpro.Pipeline.Xfer.{Xfer, Pipe, inc, xfer_free}

-- What is left for `mpro_send_xfer` to do when it drops the lock: return, or submit.
pub data Next : Type 0 where
  stop : Ret → Next
  submit : Xfer → Next

-- Coalescing: the new transfer takes the pending slot, and what was there is dropped.
unfoldable pub replace_pending : Xfer → Pipe → Pipe
unfolding xfer_free
replace_pending t p =
    let q = record p { pending_xfer = some t } in
    elim p.pending_xfer [
      | none ↦ q
      | some old ↦ xfer_free (some old) (record q { stats_dropped = inc p.stats_dropped })
    ]

-- From the lock to the decision whether to submit.
unfoldable pub send_enter : Xfer → Pipe → Next × Pipe
unfolding xfer_free replace_pending
send_enter t p =
    let counted = record p { stats_submitted = inc p.stats_submitted } in
    if not p.running
    then (stop eshutdown, xfer_free (some t) p)
    else if p.is_idle
    then (stop 0, xfer_free (some t) (record p { stats_dropped = inc p.stats_dropped }))
    else if not p.in_flight
    then (submit t, record counted { in_flight = true; current_xfer = some t })
    else (stop 0, replace_pending t counted)

-- The second locked section, after a submission that failed; `mpro_complete_work` has it too.
unfoldable pub submit_failed : Xfer → Pipe → Pipe
unfolding xfer_free
submit_failed t p = xfer_free (some t) (record p { current_xfer = none; in_flight = false })

-- After `mpro_xfer_submit`, which returned `ret`.
unfoldable pub after_submit : Ret → Xfer → Pipe → Ret × Pipe
unfolding submit_failed
after_submit ret t p = if ret == 0 then (0, p) else (ret, submit_failed t p)

-- `mpro_send_xfer` when nothing runs between its two sections; `ret` is what submission returns.
unfoldable pub send_xfer : Ret → Xfer → Pipe → Ret × Pipe
unfolding send_enter after_submit
send_xfer ret t p =
    let (next, q) = send_enter t p in
    elim next [ stop r ↦ (r, q) | submit u ↦ after_submit ret u q ]
