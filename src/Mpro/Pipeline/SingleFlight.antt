-- ===== src/Mpro/Pipeline/SingleFlight.antt =====
-- mpro_pipeline.c: the token on every interleaving, and the phases of the shutdown.
use packages.Base.{
  ◌≡◌, sym, ap, ◌∙◌, true, false, some, List, [], ◌∷◌, ◌++◌, length, length-middle, All-middle,
  is_some, Bool-cases, inl, inr, refl, arith,
}
use packages.Mpro.Pipeline.Xfer.{Xfer}
use packages.Mpro.Pipeline.Complete.{ctrl_complete}
use packages.Mpro.Pipeline.System.{
  System, allocate, enter, settle, ctrl_irq, bulk_irq, run_work, switch, kill_urbs, cancel_work,
  free_slots, Step, make_raw, make_lz4, send, submitted, ctrl_done, bulk_done, work_runs, switched,
  killed, work_cancelled, slots_freed, Reach, here, next, IsFresh,
}
use packages.Mpro.Pipeline.Token.{HasToken}
use packages.Mpro.Pipeline.Sections.{
  xfer_alloc-Keeps, xfer_alloc_compressed-Keeps, bulk_complete-Keeps, Step-HasToken,
  IsFresh-HasToken,
}
use packages.Mpro.Pipeline.Stopped.{
  send_enter-running, send_enter-stopped, xfer_alloc-running, xfer_alloc_compressed-running,
  after_submit-running, bulk_complete-running, complete_enter-running, complete_enter-stopped,
  complete_enter-paired, io_shutdown-running, io_shutdown-paired, after_ctrl-same,
  after_ctrl-submitters, keeps-paired,
}

-- Once the work is cancelled no thread submits; the slot and the flag agree even then.
pub record IsQuiet (s : System) : Type 0 where
  pub empty : s.submitters ≡ []
  pub current_set : is_some s.pipe.current_xfer ≡ s.pipe.in_flight

-- What holds in every phase of the shutdown.
pub record IsGuarded (s : System) : Type 0 where
  pub live : s.cancelled ≡ false → HasToken s
  pub quiet : s.cancelled ≡ true → IsQuiet s
  pub stopped : s.closing ≡ true → s.pipe.running ≡ false
  pub after : s.cancelled ≡ true → s.closing ≡ true

pub IsGuarded-current_set :
    (s : System) → IsGuarded s → is_some s.pipe.current_xfer ≡ s.pipe.in_flight
IsGuarded-current_set s h = elim (Bool-cases s.cancelled) [
  | inl e ↦ (h.quiet e).current_set
  | inr e ↦ (h.live e).current_set
]

-- A thread that submits holds the current transfer.
pub IsGuarded-submitter :
    (s : System) (t : Xfer) (before after : List Xfer)
    → s.submitters ≡ before ++ t ∷ after
    → IsGuarded s
    → s.pipe.current_xfer ≡ some t
IsGuarded-submitter s t before after e h = elim (Bool-cases s.cancelled) [
  | inl c ↦
      absurd (omega (arith, length-middle before t after, ap length (sym e ∙ (h.quiet c).empty)))
  | inr c ↦
      All-middle (λ u. s.pipe.current_xfer ≡ some u) before t after (rw e at ((h.live c).subs_hold))
]

-- The step before: the work was not cancelled either.
Step-live : {s u : System} → Step s u → u.cancelled ≡ false → s.cancelled ≡ false
unfolding allocate enter settle ctrl_irq bulk_irq run_work switch kill_urbs cancel_work free_slots
Step-live (make_raw m partial src len a) on = on
Step-live (make_lz4 lz4 m partial src len a) on = on
Step-live (send t before after e) on = on
Step-live (submitted ret t before after e) on = on
Step-live {s} (ctrl_done status bulk_ret t before after e) on =
    sym (after_ctrl-same (ctrl_complete status bulk_ret) s t (before ++ after)).2 ∙ on
Step-live (bulk_done status now t before after e) on = on
Step-live (work_runs e) on = on
Step-live (switched running is_idle up) on = on
Step-live (killed e none_ctrl none_bulk) on = on
Step-live (work_cancelled e none_left) on = absurd (ground (arith, on))
Step-live (slots_freed e) on = on

Step-quiet : {s u : System} → Step s u → u.cancelled ≡ true → IsGuarded s → IsQuiet u
unfolding allocate enter settle ctrl_irq bulk_irq run_work switch kill_urbs cancel_work free_slots
Step-quiet {s} (make_raw m partial src len a) c h = record {
  empty = (h.quiet c).empty;
  current_set = keeps-paired (xfer_alloc-Keeps m partial src len a s.pipe) (h.quiet c).current_set;
}
Step-quiet {s} (make_lz4 lz4 m partial src len a) c h = record {
  empty = (h.quiet c).empty;
  current_set =
      keeps-paired (xfer_alloc_compressed-Keeps lz4 m partial src len a s.pipe)
        (h.quiet c).current_set;
}
Step-quiet {s} (send t before after e) c h =
    let stop = send_enter-stopped t s.pipe (h.stopped (h.after c)) in
    record {
      empty = rw stop.0 (h.quiet c).empty;
      current_set = keeps-paired stop.1 (h.quiet c).current_set;
    }
Step-quiet {s} (submitted ret t before after e) c h =
    absurd (omega (arith, length-middle before t after, ap length (sym e ∙ (h.quiet c).empty)))
Step-quiet {s} (ctrl_done status bulk_ret t before after e) c h =
    let k = ctrl_complete status bulk_ret in
    let same = after_ctrl-same k s t (before ++ after) in
    let q = h.quiet (sym same.2 ∙ c) in
    record {
      empty = after_ctrl-submitters k s t (before ++ after) ∙ q.empty;
      current_set = rw same.0 q.current_set;
    }
Step-quiet {s} (bulk_done status now t before after e) c h = record {
  empty = (h.quiet c).empty;
  current_set = keeps-paired (bulk_complete-Keeps status now s.pipe) (h.quiet c).current_set;
}
Step-quiet {s} (work_runs e) c h =
    let down = h.stopped (h.after c) in
    record {
      empty = rw (complete_enter-stopped s.pipe down) (h.quiet c).empty;
      current_set = complete_enter-paired s.pipe down;
    }
Step-quiet (switched running is_idle up) c h = record {
  empty = (h.quiet c).empty;
  current_set = (h.quiet c).current_set;
}
Step-quiet (killed e none_ctrl none_bulk) c h = record {
  empty = (h.quiet c).empty;
  current_set = (h.quiet c).current_set;
}
Step-quiet {s} (work_cancelled e none_left) c h = record {
  empty = none_left;
  current_set = IsGuarded-current_set s h;
}
Step-quiet {s} (slots_freed e) c h = record {
  empty = (h.quiet c).empty;
  current_set = io_shutdown-paired s.pipe;
}

Step-stopped : {s u : System} → Step s u → u.closing ≡ true → IsGuarded s → u.pipe.running ≡ false
unfolding allocate enter settle ctrl_irq bulk_irq run_work switch kill_urbs cancel_work free_slots
Step-stopped {s} (make_raw m partial src len a) c h =
    xfer_alloc-running m partial src len a s.pipe ∙ h.stopped c
Step-stopped {s} (make_lz4 lz4 m partial src len a) c h =
    xfer_alloc_compressed-running lz4 m partial src len a s.pipe ∙ h.stopped c
Step-stopped {s} (send t before after e) c h = send_enter-running t s.pipe ∙ h.stopped c
Step-stopped {s} (submitted ret t before after e) c h =
    after_submit-running ret t s.pipe ∙ h.stopped c
Step-stopped {s} (ctrl_done status bulk_ret t before after e) c h =
    let same = after_ctrl-same (ctrl_complete status bulk_ret) s t (before ++ after) in
    rw same.0 (h.stopped (sym same.1 ∙ c))
Step-stopped {s} (bulk_done status now t before after e) c h =
    bulk_complete-running status now s.pipe ∙ h.stopped c
Step-stopped {s} (work_runs e) c h = complete_enter-running s.pipe ∙ h.stopped c
Step-stopped (switched running is_idle up) c h = ground (arith, up, c)
Step-stopped (killed e none_ctrl none_bulk) c h = e
Step-stopped (work_cancelled e none_left) c h = h.stopped e
Step-stopped {s} (slots_freed e) c h = io_shutdown-running s.pipe ∙ h.stopped c

Step-after : {s u : System} → Step s u → u.cancelled ≡ true → IsGuarded s → u.closing ≡ true
unfolding allocate enter settle ctrl_irq bulk_irq run_work switch kill_urbs cancel_work free_slots
Step-after (make_raw m partial src len a) c h = h.after c
Step-after (make_lz4 lz4 m partial src len a) c h = h.after c
Step-after (send t before after e) c h = h.after c
Step-after (submitted ret t before after e) c h = h.after c
Step-after {s} (ctrl_done status bulk_ret t before after e) c h =
    let same = after_ctrl-same (ctrl_complete status bulk_ret) s t (before ++ after) in
    same.1 ∙ h.after (sym same.2 ∙ c)
Step-after (bulk_done status now t before after e) c h = h.after c
Step-after (work_runs e) c h = h.after c
Step-after (switched running is_idle up) c h = h.after c
Step-after (killed e none_ctrl none_bulk) c h = refl
Step-after (work_cancelled e none_left) c h = e
Step-after (slots_freed e) c h = h.after c

Step-IsGuarded : {s u : System} → Step s u → IsGuarded s → IsGuarded u
Step-IsGuarded st h = record {
  live = λ on. Step-HasToken st on (h.live (Step-live st on));
  quiet = λ c. Step-quiet st c h;
  stopped = λ c. Step-stopped st c h;
  after = λ c. Step-after st c h;
}

IsFresh-IsGuarded : {s : System} → IsFresh s → IsGuarded s
IsFresh-IsGuarded v = record {
  live = λ on. IsFresh-HasToken v;
  quiet = λ c. absurd (ground (arith, c, v.cancelled));
  stopped = λ c. absurd (ground (arith, c, v.closing));
  after = λ c. absurd (ground (arith, c, v.cancelled));
}

pub Reach-IsGuarded : {s u : System} → IsFresh s → Reach s u → IsGuarded u
Reach-IsGuarded v here = IsFresh-IsGuarded v
Reach-IsGuarded v (next r st) = Step-IsGuarded st (Reach-IsGuarded v r)

-- However the threads, the host, the workqueue and the shutdown interleave, until the shutdown has
-- cancelled the work: `in_flight` is set exactly while one single activity (a thread about to submit, an
-- URB that is out, or the queued work) holds a transfer, `current_xfer` is set exactly then, and it is the
-- transfer that this activity holds.
pub Reach-HasToken : {s u : System} → IsFresh s → Reach s u → u.cancelled ≡ false → HasToken u
Reach-HasToken v r on = (Reach-IsGuarded v r).live on
