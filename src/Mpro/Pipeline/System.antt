-- ===== src/Mpro/Pipeline/System.antt =====
-- mpro_pipeline.c as a system of interleaved sections: any number of threads that send frames, the
-- USB host that completes URBs, the ordered workqueue and the shutdown of the device, whose three
-- calls are steps of their own. A step is one locked section or one completion.
use packages.Base.{
  ℕ, ◌≡◌, Bool, true, false, Option, none, some, List, [], ◌∷◌, ◌++◌, ◌==◌, ◌&&◌, if◌then◌else◌,
}
use packages.Base.Errno.{Ret}
use packages.Mpro.Pipeline.Xfer.{Xfer, Pipe, io_shutdown}
use packages.Mpro.Pipeline.Alloc.{Memory, Compressor, Area, xfer_alloc, xfer_alloc_compressed}
use packages.Mpro.Pipeline.Send.{Next, stop, submit, send_enter, after_submit}
use packages.Mpro.Pipeline.Complete.{
  complete_enter, bulk_complete, AfterCtrl, bulk_submitted, work_queued, ctrl_complete,
}

-- The device and what is under way: `hands` are transfers that a thread has allocated and not yet
-- sent, `submitters` those that a thread is about to submit, outside the lock; `on_ctrl` and
-- `on_bulk` have an URB out; `work` says that `complete_work` is queued. `closing` and `cancelled` say
-- that the shutdown is past the kill of the URBs, and past the cancellation of the work.
pub record System : Type 0 where
  pub pipe : Pipe
  pub hands : List Xfer
  pub submitters : List Xfer
  pub on_ctrl : List Xfer
  pub on_bulk : List Xfer
  pub work : Bool
  pub closing : Bool
  pub cancelled : Bool

abbrev pub put : Option Xfer → List Xfer → List Xfer
put none ts = ts
put (some t) ts = t ∷ ts

abbrev pub to_submit : Next → Option Xfer
to_submit (stop r) = none
to_submit (submit t) = some t

unfoldable pub allocate : Option Xfer × Pipe → System → System
allocate (got, p) s = record s { pipe = p; hands = put got s.hands }

-- `mpro_send_xfer` up to the decision; `rest` is what the other threads hold.
unfoldable pub enter : Xfer → List Xfer → System → System
enter t rest s =
    let (next, p) = send_enter t s.pipe in
    record s { pipe = p; hands = rest; submitters = put (to_submit next) s.submitters }

-- `usb_submit_urb` of the control URB returns `ret` to the thread that submits `t`.
unfoldable pub settle : Ret → Xfer → List Xfer → System → System
settle ret t rest s = record s {
  pipe = (after_submit ret t s.pipe).1;
  submitters = rest;
  on_ctrl = if ret == 0 then t ∷ s.on_ctrl else s.on_ctrl;
}

unfoldable pub after_ctrl : AfterCtrl → Xfer → List Xfer → System → System
after_ctrl bulk_submitted t rest s = record s { on_ctrl = rest; on_bulk = t ∷ s.on_bulk }
after_ctrl work_queued t rest s = record s { on_ctrl = rest; work = true }

unfoldable pub ctrl_irq : Ret → Ret → Xfer → List Xfer → System → System
ctrl_irq status bulk_ret t rest s = after_ctrl (ctrl_complete status bulk_ret) t rest s

unfoldable pub bulk_irq : Ret → ℕ → List Xfer → System → System
bulk_irq status now rest s = record s {
  pipe = bulk_complete status now s.pipe;
  on_bulk = rest;
  work = true;
}

unfoldable pub run_work : System → System
run_work s =
    let (next, p) = complete_enter s.pipe in
    record s { pipe = p; work = false; submitters = put next s.submitters }

-- `running` and `is_idle` are written by the probe, the disconnect and the idle management.
unfoldable pub switch : Bool → Bool → System → System
switch running is_idle s = record s {
  pipe = record (s.pipe) { running = running; is_idle = is_idle };
}

-- `usb_kill_anchored_urbs`: it returns when the last URB that it found has completed.
unfoldable pub kill_urbs : System → System
kill_urbs s = record s { closing = true }

-- `cancel_work_sync`: work that is queued is dropped.
unfoldable pub cancel_work : System → System
cancel_work s = record s { work = false; cancelled = true }

-- The rest of `mpro_io_shutdown`: the transfers in the slots are freed.
unfoldable pub free_slots : System → System
free_slots s = record s { pipe = io_shutdown s.pipe }

-- One step. The shutdown begins with `running` cleared, which is not set again. A killed URB completes
-- with an error by the steps of the host, and the kill returns when none is out. A worker that has taken a
-- frame before may submit it after that; the cancellation waits for it. No other thread submits then, as
-- the children are removed and the idle work is cancelled before the shutdown.
pub data Step (s : System) : System → Type 0 where
  make_raw :
      (m : Memory) (partial : Bool) (src : Option (List ℕ)) (len : ℕ) (a : Area)
      → Step s (allocate (xfer_alloc m partial src len a s.pipe) s)
  make_lz4 :
      (lz4 : Compressor) (m : Memory) (partial : Bool) (src : List ℕ) (len : ℕ) (a : Area)
      → Step s (allocate (xfer_alloc_compressed lz4 m partial src len a s.pipe) s)
  send :
      (t : Xfer) (before after : List Xfer)
      → s.hands ≡ before ++ t ∷ after
      → Step s (enter t (before ++ after) s)
  submitted :
      (ret : Ret) (t : Xfer) (before after : List Xfer)
      → s.submitters ≡ before ++ t ∷ after
      → Step s (settle ret t (before ++ after) s)
  ctrl_done :
      (status bulk_ret : Ret) (t : Xfer) (before after : List Xfer)
      → s.on_ctrl ≡ before ++ t ∷ after
      → Step s (ctrl_irq status bulk_ret t (before ++ after) s)
  bulk_done :
      (status : Ret) (now : ℕ) (t : Xfer) (before after : List Xfer)
      → s.on_bulk ≡ before ++ t ∷ after
      → Step s (bulk_irq status now (before ++ after) s)
  work_runs : s.work ≡ true → Step s (run_work s)
  switched :
      (running is_idle : Bool) → (s.closing && running) ≡ false → Step s (switch running is_idle s)
  killed : s.pipe.running ≡ false → s.on_ctrl ≡ [] → s.on_bulk ≡ [] → Step s (kill_urbs s)
  work_cancelled : s.closing ≡ true → s.submitters ≡ [] → Step s (cancel_work s)
  slots_freed : s.cancelled ≡ true → Step s (free_slots s)

pub data Reach (s : System) : System → Type 0 where
  here : Reach s s
  next : {t u : System} → Reach s t → Step t u → Reach s u

-- After `mpro_io_init`: nothing is in flight, nothing was allocated.
pub record IsFresh (s : System) : Type 0 where
  pub hands : s.hands ≡ []
  pub submitters : s.submitters ≡ []
  pub on_ctrl : s.on_ctrl ≡ []
  pub on_bulk : s.on_bulk ≡ []
  pub work : s.work ≡ false
  pub closing : s.closing ≡ false
  pub cancelled : s.cancelled ≡ false
  pub in_flight : s.pipe.in_flight ≡ false
  pub current : s.pipe.current_xfer ≡ none
  pub pending : s.pipe.pending_xfer ≡ none
  pub allocated : s.pipe.allocated ≡ 0
  pub freed : s.pipe.freed ≡ []
