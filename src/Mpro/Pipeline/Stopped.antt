-- ===== src/Mpro/Pipeline/Stopped.antt =====
-- mpro_pipeline.c: what the sections do after `running` is cleared.
use packages.Base.{ℕ, ◌≡◌, refl, Bool, false, Option, none, List, is_some, arith}
use packages.Base.Errno.{Ret}
use packages.Mpro.Pipeline.Xfer.{Xfer, Pipe, xfer_free, io_shutdown}
use packages.Mpro.Pipeline.Alloc.{Memory, Compressor, Area, xfer_alloc, xfer_alloc_compressed}
use packages.Mpro.Pipeline.Send.{replace_pending, send_enter, after_submit}
use packages.Mpro.Pipeline.Complete.{
  complete_enter, bulk_complete, AfterCtrl, bulk_submitted, work_queued,
}
use packages.Mpro.Pipeline.System.{System, to_submit, after_ctrl}
use packages.Mpro.Pipeline.Sections.{Keeps}

-- What the sections do to `running`.
pub send_enter-running : (t : Xfer) (p : Pipe) → (send_enter t p).1.running ≡ p.running
unfolding send_enter replace_pending xfer_free
send_enter-running t p = ground arith

pub send_enter-stopped :
    (t : Xfer) (p : Pipe)
    → p.running ≡ false
    → (to_submit (send_enter t p).0 ≡ none) × Keeps p (send_enter t p).1
unfolding send_enter xfer_free
send_enter-stopped t p h = ground (arith, h)

pub xfer_alloc-running :
    (m : Memory) (partial : Bool) (src : Option (List ℕ)) (len : ℕ) (a : Area) (p : Pipe)
    → (xfer_alloc m partial src len a p).1.running ≡ p.running
unfolding xfer_alloc
xfer_alloc-running m partial src len a p = ground arith

pub xfer_alloc_compressed-running :
    (lz4 : Compressor) (m : Memory) (partial : Bool) (src : List ℕ) (len : ℕ) (a : Area) (p : Pipe)
    → (xfer_alloc_compressed lz4 m partial src len a p).1.running ≡ p.running
unfolding xfer_alloc_compressed
xfer_alloc_compressed-running lz4 m partial src len a p = ground arith

pub after_submit-running :
    (ret : Ret) (t : Xfer) (p : Pipe) → (after_submit ret t p).1.running ≡ p.running
unfolding after_submit
after_submit-running ret t p = ground arith

pub bulk_complete-running :
    (status now : ℕ) (p : Pipe) → (bulk_complete status now p).running ≡ p.running
unfolding bulk_complete
bulk_complete-running status now p = ground arith

pub complete_enter-running : (p : Pipe) → (complete_enter p).1.running ≡ p.running
unfolding complete_enter
complete_enter-running p = ground arith

pub complete_enter-stopped : (p : Pipe) → p.running ≡ false → (complete_enter p).0 ≡ none
unfolding complete_enter
complete_enter-stopped p h = ground (arith, h)

pub io_shutdown-running : (p : Pipe) → (io_shutdown p).running ≡ p.running
unfolding io_shutdown
io_shutdown-running p = ground arith

pub after_ctrl-same :
    (k : AfterCtrl) (s : System) (t : Xfer) (rest : List Xfer)
    → let u = after_ctrl k t rest s in
      (u.pipe ≡ s.pipe) × (u.closing ≡ s.closing) × (u.cancelled ≡ s.cancelled)
unfolding after_ctrl
after_ctrl-same bulk_submitted s t rest = (refl, refl, refl)
after_ctrl-same work_queued s t rest = (refl, refl, refl)

pub after_ctrl-submitters :
    (k : AfterCtrl) (s : System) (t : Xfer) (rest : List Xfer)
    → (after_ctrl k t rest s).submitters ≡ s.submitters
unfolding after_ctrl
after_ctrl-submitters bulk_submitted s t rest = refl
after_ctrl-submitters work_queued s t rest = refl

pub keeps-paired :
    {f g : Bool} {c d : Option Xfer} → (g ≡ f) × (d ≡ c) → is_some c ≡ f → is_some d ≡ g
keeps-paired k h = rw (k.0, k.1) h

pub complete_enter-paired :
    (p : Pipe)
    → p.running ≡ false
    → is_some (complete_enter p).1.current_xfer ≡ (complete_enter p).1.in_flight
unfolding complete_enter
complete_enter-paired p h = ground (arith, h)

pub io_shutdown-paired :
    (p : Pipe) → is_some (io_shutdown p).current_xfer ≡ (io_shutdown p).in_flight
unfolding io_shutdown
io_shutdown-paired p = ground arith
