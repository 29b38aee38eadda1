-- ===== src/Beada/Link/Power.antt =====
-- beada-pm.c: suspend, resume and the handlers that run after a resume.
use packages.Base.{◌+◌, ◌-◌, true, false, List, [], ◌∷◌, not, ◌||◌, ◌==◌, if◌then◌else◌}
use packages.Base.Errno.{Ret}
use packages.Beada.Link.Device.{bus_back, Link, Host, Bulk}
use packages.Beada.Link.Frames.{flush_frame_transfer}
use packages.Beada.Link.Status.{Time, panellink_reset, sync_time}

-- `beada_usb_suspend`: the handlers are cancelled and a queued frame is sent first.
unfoldable pub usb_suspend : Host → Bulk → Bulk → Link → Link
usb_suspend host tag body l =
    let drained = flush_frame_transfer host tag body (record l { resume_work = false }) in
    record drained { suspended = true }

-- `beada_usb_resume` up to the reset, when the bus is back.
unfoldable pub wake_bus : Link → Link
wake_bus l = record l { suspended = false; in_resume = true; wire = bus_back ∷ l.wire }

-- `beada_usb_resume`: `reset` and `clock` are the transfers of the two commands.
unfoldable pub usb_resume : Host → Time → Bulk → Bulk → Link → Link
usb_resume host now reset clock l =
    let (ret, after_reset) = panellink_reset host reset (wake_bus l) in
    let forgotten = record after_reset { cached_w = 0; cached_h = 0 } in
    let synced =
      if forgotten.has_statuslink then (sync_time host now 0 clock forgotten).1 else forgotten in
    record synced { in_resume = false; resume_work = true }

-- The loop over the registered handlers.
unfoldable pub run_handlers : List (Link → Link) → Link → Link
run_handlers [] l = l
run_handlers (h ∷ hs) l = run_handlers hs (h l)

-- `beada_resume_handlers_work`; `pm` is what `usb_autopm_get_interface` returns.
unfoldable pub resume_handlers_work : Ret → List (Link → Link) → Link → Link
resume_handlers_work pm handlers queued =
    let l = record queued { resume_work = false } in
    if l.disconnected || l.suspended
    then l
    else if not (pm == 0)
    then l
    else let done = run_handlers handlers (record l { autopm = l.autopm + 1 }) in
      record done { autopm = done.autopm - 1 }

-- `beada_pipe_active` and `beada_pipe_idle`.
unfoldable pub pipe_active : Ret → Link → Ret × Link
pipe_active pm l = (pm, if pm == 0 then record l { autopm = l.autopm + 1 } else l)

unfoldable pub pipe_idle : Link → Link
pipe_idle l = record l { autopm = l.autopm - 1 }
