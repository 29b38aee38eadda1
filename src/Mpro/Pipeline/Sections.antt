-- ===== src/Mpro/Pipeline/Sections.antt =====
-- mpro_pipeline.c: what each section does to the token.
use packages.Base.{
  ℕ, ◌⊎◌, ◌==◌, ◌≡◌, Bool, true, false, Option, none, some, List, ◌∷◌, ◌++◌, arith, inl, inr,
}
use packages.Base.Errno.{Ret}
use packages.Mpro.Pipeline.Xfer.{Xfer, Pipe}
use packages.Mpro.Pipeline.Alloc.{Memory, Compressor, Area, xfer_alloc, xfer_alloc_compressed}
use packages.Mpro.Pipeline.Send.{send_enter, after_submit}
use packages.Mpro.Pipeline.Complete.{
  complete_enter, bulk_complete, ctrl_complete, AfterCtrl, bulk_submitted, work_queued,
}
use packages.Mpro.Pipeline.System.{
  System, to_submit, allocate, enter, settle, after_ctrl, ctrl_irq, bulk_irq, run_work, switch,
  kill_urbs, cancel_work, free_slots, Step, make_raw, make_lz4, send, submitted, ctrl_done,
  bulk_done, work_runs, switched, killed, work_cancelled, slots_freed, IsFresh,
}
use packages.Base.{Option-cases}
use packages.Mpro.Pipeline.Token.{
  Token, HasToken, take-Token, drop-Token, submitted-Token, refused-Token, ctrl_ok-Token,
  ctrl_failed-Token, bulk_done-Token, work_next-Token, work_idle-Token,
}

-- The two fields that the token is about.
abbrev pub Keeps : Pipe → Pipe → Type 0
Keeps p q = (q.in_flight ≡ p.in_flight) × (q.current_xfer ≡ p.current_xfer)

-- What `send_enter` does to the token's fields, and whom it lets submit.
send_enter-cases :
    (t : Xfer) (p : Pipe)
    → ((to_submit (send_enter t p).0 ≡ none) × Keeps p (send_enter t p).1)
      ⊎ ((p.in_flight ≡ false)
          × (to_submit (send_enter t p).0 ≡ some t)
          × ((send_enter t p).1.in_flight ≡ true)
          × ((send_enter t p).1.current_xfer ≡ some t))
unfolding send_enter
send_enter-cases t p = ground arith

pub complete_enter-idle :
    (p : Pipe)
    → (complete_enter p).0 ≡ none
    → ((complete_enter p).1.in_flight ≡ false) × ((complete_enter p).1.current_xfer ≡ none)
unfolding complete_enter
complete_enter-idle p h = ground arith

pub complete_enter-next :
    (p : Pipe) (t : Xfer)
    → (complete_enter p).0 ≡ some t
    → ((complete_enter p).1.in_flight ≡ p.in_flight) × ((complete_enter p).1.current_xfer ≡ some t)
unfolding complete_enter
complete_enter-next p t h = ground arith

pub xfer_alloc-Keeps :
    (m : Memory) (partial : Bool) (src : Option (List ℕ)) (len : ℕ) (a : Area) (p : Pipe)
    → Keeps p (xfer_alloc m partial src len a p).1
unfolding xfer_alloc
xfer_alloc-Keeps m partial src len a p = ground arith

pub xfer_alloc_compressed-Keeps :
    (lz4 : Compressor) (m : Memory) (partial : Bool) (src : List ℕ) (len : ℕ) (a : Area) (p : Pipe)
    → Keeps p (xfer_alloc_compressed lz4 m partial src len a p).1
unfolding xfer_alloc_compressed
xfer_alloc_compressed-Keeps lz4 m partial src len a p = ground arith

pub bulk_complete-Keeps : (status now : ℕ) (p : Pipe) → Keeps p (bulk_complete status now p)
unfolding bulk_complete
bulk_complete-Keeps status now p = ground arith

after_submit-cases :
    (ret : Ret) (t : Xfer) (p : Pipe)
    → ((ret == 0 ≡ true) × Keeps p (after_submit ret t p).1)
      ⊎ ((ret == 0 ≡ false)
          × ((after_submit ret t p).1.in_flight ≡ false)
          × ((after_submit ret t p).1.current_xfer ≡ none))
unfolding after_submit
after_submit-cases ret t p = ground arith

-- Rewrites the token along the two fields.
transfer-Token :
    {f g : Bool} {c d : Option Xfer} {subs ctrl bulk : List Xfer} {work : Bool}
    → (g ≡ f) × (d ≡ c)
    → Token f c subs ctrl bulk work
    → Token g d subs ctrl bulk work
transfer-Token e h = rw (e.0, e.1) h

enter-HasToken : (s : System) (t : Xfer) (rest : List Xfer) → HasToken s → HasToken (enter t rest s)
unfolding enter
enter-HasToken s t rest h = elim (send_enter-cases t s.pipe) [
  | inl k ↦ rw k.0 (transfer-Token k.1 h)
  | inr k ↦ rw k.1 (transfer-Token (k.2, k.3) (take-Token t k.0 h))
]

settle-HasToken :
    (s : System) (ret : Ret) (t : Xfer) (before after : List Xfer)
    → s.submitters ≡ before ++ t ∷ after
    → HasToken s
    → HasToken (settle ret t (before ++ after) s)
unfolding settle
settle-HasToken s ret t before after e h = elim (after_submit-cases ret t s.pipe) [
  | inl k ↦ rw k.0 (transfer-Token k.1 (submitted-Token before t after (rw e at h)))
  | inr k ↦ rw k.0 (transfer-Token (k.1, k.2) (refused-Token before t after (rw e at h)))
]

ctrl_irq-HasToken :
    (s : System) (k : AfterCtrl) (t : Xfer) (before after : List Xfer)
    → s.on_ctrl ≡ before ++ t ∷ after
    → HasToken s
    → HasToken (after_ctrl k t (before ++ after) s)
unfolding after_ctrl
ctrl_irq-HasToken s bulk_submitted t before after e h = ctrl_ok-Token before t after (rw e at h)
ctrl_irq-HasToken s work_queued t before after e h = ctrl_failed-Token before t after (rw e at h)

run_work-HasToken : (s : System) → s.work ≡ true → HasToken s → HasToken (run_work s)
unfolding run_work
run_work-HasToken s e h = elim (Option-cases (complete_enter s.pipe).0) [
  | inl k ↦ rw k (transfer-Token (complete_enter-idle s.pipe k) (work_idle-Token (rw e at h)))
  | inr (t, k) ↦
      let (up, moved) = work_next-Token t (rw e at h) in
      rw k (transfer-Token (complete_enter-next s.pipe t k) moved)
]

-- Every step up to the cancellation of the work keeps the token.
pub Step-HasToken : {s u : System} → Step s u → u.cancelled ≡ false → HasToken s → HasToken u
unfolding allocate ctrl_irq bulk_irq switch kill_urbs cancel_work free_slots
Step-HasToken {s} (make_raw m partial src len a) on h =
    transfer-Token (xfer_alloc-Keeps m partial src len a s.pipe) h
Step-HasToken {s} (make_lz4 lz4 m partial src len a) on h =
    transfer-Token (xfer_alloc_compressed-Keeps lz4 m partial src len a s.pipe) h
Step-HasToken {s} (send t before after e) on h = enter-HasToken s t (before ++ after) h
Step-HasToken {s} (submitted ret t before after e) on h = settle-HasToken s ret t before after e h
Step-HasToken {s} (ctrl_done status bulk_ret t before after e) on h =
    ctrl_irq-HasToken s (ctrl_complete status bulk_ret) t before after e h
Step-HasToken {s} (bulk_done status now t before after e) on h =
    transfer-Token (bulk_complete-Keeps status now s.pipe)
      (bulk_done-Token before t after (rw e at h))
Step-HasToken {s} (work_runs e) on h = run_work-HasToken s e h
Step-HasToken {s} (switched running is_idle up) on h = h
Step-HasToken {s} (killed e none_ctrl none_bulk) on h = h
Step-HasToken {s} (work_cancelled e none_left) on h = absurd (ground (arith, on))
Step-HasToken {s} (slots_freed e) on h = absurd (ground (arith, e, on))

pub IsFresh-HasToken : {s : System} → IsFresh s → HasToken s
IsFresh-HasToken {s} v =
    rw (v.submitters, v.on_ctrl, v.on_bulk, v.work)
      (transfer-Token (v.in_flight, v.current) (drop-Token (omega arith)))
