-- ===== src/Mpro/Pm/Blank.antt =====
-- mpro_pm.c and mpro_pipeline.c together: the black frame of `mpro_idle_work` meets the test of
-- `is_idle` in `mpro_send_xfer`.
use packages.Base.{
  ℕ, ◌≡◌, refl, Bool, true, false, Option, none, some, List, arith, inl, inr, Bool-cases, ◌∙◌, ◌==◌,
}
use packages.Base.Errno.{Ret}
use packages.Mpro.Model.{ModelInfo}
use packages.Mpro.Pipeline.Xfer.{Xfer, Pipe}
use packages.Mpro.Pipeline.Alloc.{
  Memory, Compressor, Area, xfer_alloc, xfer_alloc_compressed, lz4_should_compress,
}
use packages.Mpro.Pipeline.Send.{send_xfer}
use packages.Mpro.Pipeline.Frame.{try_lz4, send_got, send_or_raw, send_full_frame, full_area}
use packages.Mpro.Pm.Device.{Device}
use packages.Mpro.Pm.Work.{Answers, push_black, idle_work}

-- What of the pipeline decides which frames are shown: it is the same in both.
pub record IsSame (p q : Pipe) : Type 0 where
  pub is_idle : q.is_idle ≡ p.is_idle
  pub in_flight : q.in_flight ≡ p.in_flight
  pub current : q.current_xfer ≡ p.current_xfer
  pub pending : q.pending_xfer ≡ p.pending_xfer
  pub submitted : q.stats_submitted ≡ p.stats_submitted

IsSame-refl : (p : Pipe) → IsSame p p
IsSame-refl p = ground arith

IsSame-trans : {p q r : Pipe} → IsSame p q → IsSame q r → IsSame p r
IsSame-trans h k = record {
  is_idle = k.is_idle ∙ h.is_idle;
  in_flight = k.in_flight ∙ h.in_flight;
  current = k.current ∙ h.current;
  pending = k.pending ∙ h.pending;
  submitted = k.submitted ∙ h.submitted;
}

xfer_alloc-IsSame :
    (m : Memory) (partial : Bool) (src : Option (List ℕ)) (len : ℕ) (a : Area) (p : Pipe)
    → IsSame p (xfer_alloc m partial src len a p).1
unfolding xfer_alloc
xfer_alloc-IsSame m partial src len a p = ground arith

xfer_alloc_compressed-IsSame :
    (lz4 : Compressor) (m : Memory) (partial : Bool) (src : List ℕ) (len : ℕ) (a : Area) (p : Pipe)
    → IsSame p (xfer_alloc_compressed lz4 m partial src len a p).1
unfolding xfer_alloc_compressed
xfer_alloc_compressed-IsSame lz4 m partial src len a p = ground arith

-- A frame sent to an idle device is dropped.
send_xfer-IsSame :
    (ret : Ret) (t : Xfer) (p : Pipe) → p.is_idle ≡ true → IsSame p (send_xfer ret t p).1
unfolding send_xfer
send_xfer-IsSame ret t p h = ground arith

send_got-IsSame :
    (ret : Ret) (r : Option Xfer × Pipe) → (r.1).is_idle ≡ true → IsSame r.1 (send_got ret r).1
unfolding send_got
send_got-IsSame ret (some t, p) h = send_xfer-IsSame ret t p h
send_got-IsSame ret (none, p) h = IsSame-refl p

send_or_raw-IsSame :
    (ret : Ret) (m : Memory) (partial : Bool) (frame : List ℕ) (len : ℕ) (a : Area)
    (r : Option Xfer × Pipe)
    → (r.1).is_idle ≡ true
    → IsSame r.1 (send_or_raw ret m partial frame len a r).1
unfolding send_or_raw
send_or_raw-IsSame ret m partial frame len a (some t, p) h = send_got-IsSame ret (some t, p) h
send_or_raw-IsSame ret m partial frame len a (none, p) h =
    let made = xfer_alloc-IsSame m partial (some frame) len a p in
    IsSame-trans made
      (send_got-IsSame ret (xfer_alloc m partial (some frame) len a p) (made.is_idle ∙ h))

try_lz4-IsSame :
    (lz4 : Compressor) (m : Memory) (frame : List ℕ) (len : ℕ) (a : Area) (p : Pipe)
    → IsSame p (try_lz4 lz4 m frame len a p).1
unfolding try_lz4
try_lz4-IsSame lz4 m frame len a p = elim (Bool-cases (lz4_should_compress p len)) [
  | inl on ↦ rw on (xfer_alloc_compressed-IsSame lz4 m true frame len a p)
  | inr off ↦ rw off (IsSame-refl p)
]

-- A whole frame sent to an idle device is not shown and not kept.
pub send_full_frame-IsSame :
    (lz4 : Compressor) (ret : Ret) (m : Memory) (frame : Option (List ℕ)) (len : ℕ) (p : Pipe)
    → p.is_idle ≡ true
    → IsSame p (send_full_frame lz4 ret m frame len p).1
unfolding send_full_frame
send_full_frame-IsSame lz4 ret m none len p h = IsSame-refl p
send_full_frame-IsSame lz4 ret m (some frame) len p h = elim (Bool-cases (len == 0)) [
  | inl e ↦ rw e (IsSame-refl p)
  | inr e ↦
      let tried = try_lz4-IsSame lz4 m frame len (full_area p.model) p in
      rw e (IsSame-trans tried (send_or_raw-IsSame ret m false frame len _ _ (tried.is_idle ∙ h)))
]

pub push_black-IsSame :
    (o : Option ModelInfo) (a : Answers) (p : Pipe) → p.is_idle ≡ true → IsSame p (push_black o a p)
unfolding push_black
push_black-IsSame none a p h = IsSame-refl p
push_black-IsSame (some m) a p h = elim (Bool-cases a.black_ok) [
  | inl b ↦ rw b (send_full_frame-IsSame a.lz4 a.submit_ret a.memory _ _ p h)
  | inr b ↦ rw b (IsSame-refl p)
]

-- `mpro_idle_work` sets `is_idle` before it sends its black frame, so the black frame is dropped:
-- when a device goes idle, the frame on the wire, the frame that waits and the count of submitted
-- frames are what they were, whatever the allocators, the compressor and the host answer.
pub idle_work-black_dropped :
    {S : Type 0} (now : ℕ) (a : Answers) (d : Device S)
    → d.pipe.is_idle ≡ false
    → let q = (idle_work now a d).pipe in
      (q.is_idle ≡ true)
      × (q.in_flight ≡ d.pipe.in_flight)
      × (q.current_xfer ≡ d.pipe.current_xfer)
      × (q.pending_xfer ≡ d.pipe.pending_xfer)
      × (q.stats_submitted ≡ d.pipe.stats_submitted)
unfolding idle_work
idle_work-black_dropped now a d h =
    let same = push_black-IsSame d.pipe.model a (record (d.pipe) { is_idle = true }) refl in
    rw h (same.is_idle, same.in_flight, same.current, same.pending, same.submitted)
