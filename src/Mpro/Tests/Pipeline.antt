-- ===== src/Mpro/Tests/Pipeline.antt =====
-- mpro_pipeline.c on concrete devices.
use packages.Base.{ℕ, ◌<◌, ◌≡◌, refl, true, false, some, [], ◌∷◌, arith, length, flag, ltb}
use packages.Mpro.Pipeline.Xfer.{Xfer, Pipe, kvmalloc, xfer_free}
use packages.Mpro.Pipeline.Alloc.{with_urbs, xfer_alloc, xfer_alloc_compressed}
use packages.Mpro.Pipeline.Submit.{xfer_submit}
use packages.Mpro.Pipeline.Send.{submit, send_enter, submit_failed, replace_pending, after_submit}
use packages.Mpro.Pipeline.Complete.{complete_enter, ctrl_complete}
use packages.Mpro.Pipeline.System.{
  System, allocate, enter, settle, after_ctrl, ctrl_irq, bulk_irq, run_work, make_raw, send,
  submitted, ctrl_done, bulk_done, work_runs, Reach, here, next, IsFresh,
}
use packages.Mpro.Pipeline.Token.{HasToken}
use packages.Mpro.Pipeline.SingleFlight.{Reach-HasToken}
use packages.Mpro.Pipeline.Leaks.{places, Reach-owned_once}
use packages.Mpro.Pipeline.Latest.{
  IsBusy, send_all, newest, older, send_all-latest, submit_failed-overtakes,
}
use packages.Mpro.Pipeline.Wire.{read16, xfer_submit-region}
use packages.Mpro.Pipeline.Ready.{IsReady, xfer_alloc_compressed-IsReady}
use packages.Mpro.Tests.Data.{area, plenty, two_bytes, frame, fresh_pipe, busy_pipe}

-- Three frames of one thread, the first of which is shown.
abbrev start : System
start = record {
  pipe = fresh_pipe;
  hands = [];
  submitters = [];
  on_ctrl = [];
  on_bulk = [];
  work = false;
  closing = false;
  cancelled = false;
}

abbrev made : System → System
made s = allocate (xfer_alloc plenty false (some (1 ∷ 2 ∷ 3 ∷ 4 ∷ [])) 4 area s.pipe) s

abbrev sent : ℕ → System → System
sent i s = enter (frame i) [] (made s)

abbrev on_wire : System
on_wire = settle 0 (frame 0) [] (sent 0 start)

abbrev three_sent : System
three_sent = sent 2 (sent 1 on_wire)

abbrev shown : System
shown = run_work (bulk_irq 0 1000 [] (ctrl_irq 0 0 (frame 0) [] three_sent))

send_made :
    (s : System) (i : ℕ)
    → (made s).hands ≡ frame i ∷ []
    → {u : System} → Reach u s
    → Reach u (sent i s)
send_made s i e r =
    next (next r (make_raw plenty false (some (1 ∷ 2 ∷ 3 ∷ 4 ∷ [])) 4 area))
      (send (frame i) [] [] e)

Reach-on_wire : Reach start on_wire
unfolding allocate xfer_alloc with_urbs enter send_enter
Reach-on_wire = next (send_made start 0 refl here) (submitted 0 (frame 0) [] [] refl)

Reach-three_sent : Reach start three_sent
unfolding allocate xfer_alloc with_urbs enter send_enter settle after_submit replace_pending
    xfer_free
Reach-three_sent = send_made (sent 1 on_wire) 2 refl (send_made on_wire 1 refl Reach-on_wire)

Reach-shown : Reach start shown
unfolding allocate xfer_alloc with_urbs enter send_enter settle after_submit replace_pending
    xfer_free ctrl_irq after_ctrl ctrl_complete bulk_irq
Reach-shown =
    next
      (next (next Reach-three_sent (ctrl_done 0 0 (frame 0) [] [] refl))
        (bulk_done 0 1000 (frame 0) [] [] refl))
      (work_runs refl)

start-IsFresh : IsFresh start
start-IsFresh = record {
  hands = refl;
  submitters = refl;
  on_ctrl = refl;
  on_bulk = refl;
  work = refl;
  closing = refl;
  cancelled = refl;
  in_flight = refl;
  current = refl;
  pending = refl;
  allocated = refl;
  freed = refl;
}

-- The second frame was displaced, the third one is about to be submitted.
Reach-HasToken_example : HasToken shown
unfolding run_work bulk_irq ctrl_irq after_ctrl ctrl_complete enter allocate settle
Reach-HasToken_example = Reach-HasToken start-IsFresh Reach-shown refl

Reach-owned_once_example : places 1 shown ≡ flag (ltb 1 shown.pipe.allocated)
Reach-owned_once_example = Reach-owned_once 1 start-IsFresh Reach-shown

busy_pipe-IsBusy : IsBusy busy_pipe
busy_pipe-IsBusy = record { running = refl; awake = refl; in_flight = refl }

abbrev latest_sent : Pipe
latest_sent = send_all (frame 2 ∷ frame 3 ∷ []) busy_pipe

send_all-latest_example :
    (latest_sent.pending_xfer ≡ newest (some (frame 1)) (frame 2 ∷ frame 3 ∷ []))
    × (latest_sent.freed ≡ older (some (frame 1)) (frame 2 ∷ frame 3 ∷ []) [])
    × (latest_sent.current_xfer ≡ some (frame 0))
    × IsBusy latest_sent
send_all-latest_example = send_all-latest (frame 2 ∷ frame 3 ∷ []) busy_pipe busy_pipe-IsBusy

submit_failed-overtakes_example :
    let failed = submit_failed (frame 0) busy_pipe in
    let (first, after) = send_enter (frame 2) failed in
    (failed.in_flight ≡ false)
    × (failed.pending_xfer ≡ some (frame 1))
    × (first ≡ submit (frame 2))
    × ((complete_enter after).0 ≡ some (frame 1))
submit_failed-overtakes_example =
    submit_failed-overtakes busy_pipe (frame 0) (frame 1) (frame 2) busy_pipe-IsBusy refl refl

abbrev packed : Xfer
packed = record (frame 5) { compressed = true; len = 3; orig_len = 4 }

xfer_submit-region_example :
    let bytes = xfer_submit packed in
    (read16 bytes 6 ≡ 0)
    × (read16 bytes 8 ≡ 1)
    × (read16 bytes 10 ≡ 2)
    × (length bytes ≡ 14)
    × (read16 bytes 12 ≡ 1)
xfer_submit-region_example =
    xfer_submit-region packed refl (omega arith) (omega arith) (omega arith) (omega arith)

first_alloc :
    (xfer_alloc plenty false (some (1 ∷ 2 ∷ 3 ∷ 4 ∷ [])) 4 area fresh_pipe).0 ≡ some (frame 0)
unfolding xfer_alloc with_urbs
first_alloc = refl

abbrev squeezed : Xfer
squeezed = record {
  id = 0;
  partial = true;
  buffer = some (7 ∷ 9 ∷ []);
  origin = kvmalloc;
  len = 2;
  dma_coherent = false;
  x = 0;
  y = 1;
  w = 2;
  h = 1;
  ctrl_urb = true;
  bulk_urb = true;
  compressed = true;
  orig_len = 4;
}

compressed_alloc :
    (xfer_alloc_compressed two_bytes plenty true (1 ∷ 2 ∷ 3 ∷ 4 ∷ []) 4 area fresh_pipe).0
    ≡ some squeezed
unfolding xfer_alloc_compressed with_urbs
compressed_alloc = refl

xfer_alloc_compressed-IsReady_example :
    IsReady squeezed
    × (0 < squeezed.len)
    × (squeezed.len < 4)
    × (squeezed.orig_len ≡ 4)
    × (squeezed.compressed ≡ true)
xfer_alloc_compressed-IsReady_example =
    xfer_alloc_compressed-IsReady two_bytes plenty true (1 ∷ 2 ∷ 3 ∷ 4 ∷ []) 4 area fresh_pipe
      squeezed compressed_alloc
