-- ===== src/Mpro/Pipeline/Leaks.antt =====
-- mpro_pipeline.c: no transfer is leaked and none is freed twice, on any interleaving.
use packages.Base.{
  ℕ, zero, suc, ◌+◌, ◌≡◌, refl, Option, none, some, List, [], ◌∷◌, ◌++◌, arith, flag, ltb, ◌==◌,
  length, is_some,
}
use packages.Mpro.Pipeline.Xfer.{Xfer, Origin}
use packages.Mpro.Pipeline.Complete.{AfterCtrl, bulk_submitted, work_queued, ctrl_complete}
use packages.Mpro.Pipeline.System.{
  System, enter, settle, after_ctrl, ctrl_irq, bulk_irq, run_work, switch, kill_urbs, cancel_work,
  free_slots, Step, make_raw, make_lz4, send, submitted, ctrl_done, bulk_done, work_runs, switched,
  killed, work_cancelled, slots_freed, Reach, here, next, IsFresh,
}
use packages.Mpro.Pipeline.SingleFlight.{
  IsGuarded, IsGuarded-current_set, IsGuarded-submitter, Reach-IsGuarded,
}
use packages.Mpro.Pipeline.Ownership.{
  weigh_held, weigh_slot, weigh_freed, weigh_below, IsBalanced, weigh_held-middle,
  xfer_alloc-Brings, xfer_alloc_compressed-Brings, allocate-IsBalanced, send_enter-weight,
  after_submit-weight, complete_enter-weight, bulk_complete-weight, io_shutdown-weight,
}

module _ (f : ℕ → ℕ) where
  after_ctrl-IsBalanced :
      (k : AfterCtrl) (s : System) (t : Xfer) (rest : List Xfer)
      → IsBalanced f s
      → IsBalanced f (after_ctrl k t rest s)
  unfolding after_ctrl
  after_ctrl-IsBalanced bulk_submitted s t rest h = h
  after_ctrl-IsBalanced work_queued s t rest h = h

  Step-IsBalanced : {s u : System} → Step s u → IsGuarded s → IsBalanced f s → IsBalanced f u
  unfolding enter settle ctrl_irq bulk_irq run_work switch kill_urbs cancel_work free_slots
  Step-IsBalanced {s} (make_raw m partial src len a) k h =
      allocate-IsBalanced f s _ (xfer_alloc-Brings f m partial src len a s.pipe) h
  Step-IsBalanced {s} (make_lz4 lz4 m partial src len a) k h =
      allocate-IsBalanced f s _ (xfer_alloc_compressed-Brings f lz4 m partial src len a s.pipe) h
  Step-IsBalanced {s} (send t before after e) k h =
      let w = send_enter-weight f t s.pipe (IsGuarded-current_set s k) in
      let moved = rw e at h in
      rw w.1 (omega (arith, w.0, moved, weigh_held-middle f before t after))
  Step-IsBalanced {s} (submitted ret t before after e) k h =
      let w = after_submit-weight f ret t s.pipe (IsGuarded-submitter s t before after e k) in
      rw w.1 (omega (arith, w.0, h))
  Step-IsBalanced {s} (ctrl_done status bulk_ret t before after e) k h =
      after_ctrl-IsBalanced (ctrl_complete status bulk_ret) s t (before ++ after) h
  Step-IsBalanced {s} (bulk_done status now t before after e) k h =
      let w = bulk_complete-weight f status now s.pipe in rw w.1 (omega (arith, w.0, h))
  Step-IsBalanced {s} (work_runs e) k h =
      let w = complete_enter-weight f s.pipe in rw w.1 (omega (arith, w.0, h))
  Step-IsBalanced {s} (switched running is_idle up) k h = h
  Step-IsBalanced {s} (killed e none_ctrl none_bulk) k h = h
  Step-IsBalanced {s} (work_cancelled e none_left) k h = h
  Step-IsBalanced {s} (slots_freed e) k h =
      let w = io_shutdown-weight f s.pipe in rw w.1 (omega (arith, w.0, h))

  IsFresh-IsBalanced : {s : System} → IsFresh s → IsBalanced f s
  IsFresh-IsBalanced v = rw (v.hands, v.current, v.pending, v.freed, v.allocated) refl

  Reach-IsBalanced : {s u : System} → IsFresh s → Reach s u → IsBalanced f u
  Reach-IsBalanced v here = IsFresh-IsBalanced v
  Reach-IsBalanced v (next r st) = Step-IsBalanced st (Reach-IsGuarded v r) (Reach-IsBalanced v r)

-- How often a transfer stands in a list, in a slot, among the freed.
abbrev pub one : ℕ → ℕ → ℕ
one i j = flag (i == j)

abbrev pub places : ℕ → System → ℕ
places i s =
    weigh_held (one i) s.hands
    + weigh_slot (one i) s.pipe.current_xfer
    + weigh_slot (one i) s.pipe.pending_xfer
    + weigh_freed (one i) s.pipe.freed

weigh_below-one : (i n : ℕ) → weigh_below (one i) n ≡ flag (ltb i n)
weigh_below-one i zero = ground arith
weigh_below-one i (suc n) = ground (arith, weigh_below-one i n)

-- On every interleaving each transfer that was ever allocated is in exactly one place: held by a
-- thread that has not sent it, in the current slot, in the pending slot, or freed, and then freed
-- once. What was not allocated is nowhere. So nothing is leaked and nothing is freed twice.
pub Reach-owned_once :
    {s u : System} (i : ℕ) → IsFresh s → Reach s u → places i u ≡ flag (ltb i u.pipe.allocated)
Reach-owned_once {u = u} i v r =
    omega (arith, Reach-IsBalanced (one i) v r, weigh_below-one i u.pipe.allocated)

weigh_below_all : (n : ℕ) → weigh_below (λ i. 1) n ≡ n
weigh_below_all zero = refl
weigh_below_all (suc n) = omega (arith, weigh_below_all n)

weigh_held_all : (ts : List Xfer) → weigh_held (λ i. 1) ts ≡ length ts
weigh_held_all [] = refl
weigh_held_all (t ∷ ts) = omega (arith, weigh_held_all ts)

weigh_freed_all : (is : List (ℕ × Option Origin)) → weigh_freed (λ i. 1) is ≡ length is
weigh_freed_all [] = refl
weigh_freed_all ((i, how) ∷ is) = omega (arith, weigh_freed_all is)

weigh_slot_all : (o : Option Xfer) → weigh_slot (λ i. 1) o ≡ flag (is_some o)
weigh_slot_all none = refl
weigh_slot_all (some t) = refl

-- However fast frames are sent, all but two of the transfers that were sent are freed: the number
-- allocated is the number freed, plus those that a thread holds and has not sent, plus one for each
-- of the two slots that is taken.
pub Reach-live_count :
    {s u : System}
    → IsFresh s
    → Reach s u
    → u.pipe.allocated
      ≡ length u.pipe.freed
        + length u.hands
        + flag (is_some u.pipe.current_xfer)
        + flag (is_some u.pipe.pending_xfer)
Reach-live_count {u = u} v r = omega (
  arith,
  Reach-IsBalanced (λ i. 1) v r,
  weigh_below_all u.pipe.allocated,
  weigh_held_all u.hands,
  weigh_freed_all u.pipe.freed,
  weigh_slot_all u.pipe.current_xfer,
  weigh_slot_all u.pipe.pending_xfer,
)
