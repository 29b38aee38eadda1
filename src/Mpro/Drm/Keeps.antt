-- ===== src/Mpro/Drm/Keeps.antt =====
-- drm/mpro_drm_pipe.c, mpro_pm.c and the pipeline together: what an update leaves alone, and the active
-- reference of the child over any sequence of calls.
use packages.Base.{
  ℕ, ◌+◌, ◌*◌, ◌≡◌, refl, ◌∙◌, Bool, true, false, Option, none, some, List, not, ◌&&◌, ◌||◌, ◌==◌,
  ltb, drop, if-cases, arith,
}
use packages.Base.Errno.{Ret}
use packages.Mpro.Model.{ModelInfo}
use packages.Mpro.Pipeline.Xfer.{Xfer, Pipe}
use packages.Mpro.Pipeline.Alloc.{
  Memory, Compressor, Area, xfer_alloc, xfer_alloc_compressed, lz4_should_compress,
}
use packages.Mpro.Pipeline.Send.{send_xfer}
use packages.Mpro.Pipeline.Frame.{
  try_lz4, send_got, send_or_raw, send_full_frame, send_region, send_checked, send_partial_frame,
  full_area,
}
use packages.Mpro.Drm.Update.{Drm, update_region, request_update}

-- What a pipeline keeps: here the idle state, and what decides which frames are shown while it is idle.
pub record Keeps (p q : Pipe) : Type 0 where
  pub is_idle : q.is_idle ≡ p.is_idle
  pub in_flight : p.is_idle ≡ true → q.in_flight ≡ p.in_flight
  pub current : p.is_idle ≡ true → q.current_xfer ≡ p.current_xfer
  pub pending : p.is_idle ≡ true → q.pending_xfer ≡ p.pending_xfer

pub Keeps-refl : (p : Pipe) → Keeps p p
Keeps-refl p = record {
  is_idle = refl;
  in_flight = λ i. refl;
  current = λ i. refl;
  pending = λ i. refl;
}

pub Keeps-trans : {p q r : Pipe} → Keeps p q → Keeps q r → Keeps p r
Keeps-trans h k = record {
  is_idle = k.is_idle ∙ h.is_idle;
  in_flight = λ i. k.in_flight (h.is_idle ∙ i) ∙ h.in_flight i;
  current = λ i. k.current (h.is_idle ∙ i) ∙ h.current i;
  pending = λ i. k.pending (h.is_idle ∙ i) ∙ h.pending i;
}

alloc-Keeps :
    (m : Memory) (partial : Bool) (src : Option (List ℕ)) (len : ℕ) (a : Area) (p : Pipe)
    → Keeps p (xfer_alloc m partial src len a p).1
unfolding xfer_alloc
alloc-Keeps m partial src len a p = record {
  is_idle = ground arith;
  in_flight = λ i. ground arith;
  current = λ i. ground arith;
  pending = λ i. ground arith;
}

compressed-Keeps :
    (lz4 : Compressor) (m : Memory) (partial : Bool) (src : List ℕ) (len : ℕ) (a : Area) (p : Pipe)
    → Keeps p (xfer_alloc_compressed lz4 m partial src len a p).1
unfolding xfer_alloc_compressed
compressed-Keeps lz4 m partial src len a p = record {
  is_idle = ground arith;
  in_flight = λ i. ground arith;
  current = λ i. ground arith;
  pending = λ i. ground arith;
}

send-Keeps : (ret : Ret) (t : Xfer) (p : Pipe) → Keeps p (send_xfer ret t p).1
unfolding send_xfer
send-Keeps ret t p = record {
  is_idle = ground arith;
  in_flight = λ i. ground arith;
  current = λ i. ground arith;
  pending = λ i. ground arith;
}

got-Keeps : (ret : Ret) (r : Option Xfer × Pipe) → Keeps r.1 (send_got ret r).1
unfolding send_got
got-Keeps ret (some t, p) = send-Keeps ret t p
got-Keeps ret (none, p) = Keeps-refl p

raw-Keeps :
    (ret : Ret) (m : Memory) (partial : Bool) (frame : List ℕ) (len : ℕ) (a : Area)
    (r : Option Xfer × Pipe)
    → Keeps r.1 (send_or_raw ret m partial frame len a r).1
unfolding send_or_raw
raw-Keeps ret m partial frame len a (some t, p) = got-Keeps ret (some t, p)
raw-Keeps ret m partial frame len a (none, p) =
    Keeps-trans (alloc-Keeps m partial (some frame) len a p) (got-Keeps ret _)

lz4-Keeps :
    (lz4 : Compressor) (m : Memory) (frame : List ℕ) (len : ℕ) (a : Area) (p : Pipe)
    → Keeps p (try_lz4 lz4 m frame len a p).1
unfolding try_lz4
lz4-Keeps lz4 m frame len a p =
    if-cases (λ (r : Option Xfer × Pipe). Keeps p r.1) (lz4_should_compress p len)
      (λ on. compressed-Keeps lz4 m true frame len a p) (λ off. Keeps-refl p)

full-Keeps :
    (lz4 : Compressor) (ret : Ret) (m : Memory) (frame : Option (List ℕ)) (len : ℕ) (p : Pipe)
    → Keeps p (send_full_frame lz4 ret m frame len p).1
unfolding send_full_frame
full-Keeps lz4 ret m none len p = Keeps-refl p
full-Keeps lz4 ret m (some frame) len p =
    if-cases (λ (r : Ret × Pipe). Keeps p r.1) (len == 0) (λ empty. Keeps-refl p)
      (λ some.
        Keeps-trans (lz4-Keeps lz4 m frame len (full_area p.model) p)
          (raw-Keeps ret m false frame len _ _))

region-Keeps :
    (lz4 : Compressor) (ret : Ret) (m : Memory) (model : ModelInfo) (frame : List ℕ) (x y w h : ℕ)
    (p : Pipe)
    → Keeps p (send_region lz4 ret m model frame x y w h p).1
unfolding send_region
region-Keeps lz4 ret m model frame x y w h p =
    if-cases (λ (r : Ret × Pipe). Keeps p r.1) (w == 0 || h == 0) (λ empty. Keeps-refl p)
      (λ some.
        if-cases (λ (r : Ret × Pipe). Keeps p r.1) (ltb model.height (y + h + 1))
          (λ low. Keeps-refl p)
          (λ fits.
            Keeps-trans (lz4-Keeps lz4 m frame (w * h * 2) _ p)
              (raw-Keeps ret m true frame (w * h * 2) _ _)))

partial-Keeps :
    (lz4 : Compressor) (ret : Ret) (m : Memory) (o : Option ModelInfo) (frame : List ℕ)
    (x y w h : ℕ) (p : Pipe)
    → Keeps p (send_checked lz4 ret m o (some frame) x y w h p).1
unfolding send_checked
partial-Keeps lz4 ret m none frame x y w h p = Keeps-refl p
partial-Keeps lz4 ret m (some model) frame x y w h p = region-Keeps lz4 ret m model frame x y w h p

update-Keeps :
    (lz4 : Compressor) (ret : Ret) (m : Memory) (bounce_ok : Bool) (d : Drm) (x y w h : ℕ)
    (p : Pipe)
    → Keeps p (update_region lz4 ret m bounce_ok d x y w h p).1
unfolding update_region send_partial_frame
update-Keeps lz4 ret m bounce_ok d x y w h p =
    let P : Ret × Pipe → Type 0 = λ r. Keeps p r.1 in
    if-cases P (x == 0 && (y == 0 && (w == d.width && h == d.height)))
      (λ full. full-Keeps lz4 ret m (some d.shadow) d.shadow_size p)
      (λ part.
        if-cases P (w == d.width && x == 0)
          (λ wide. partial-Keeps lz4 ret m p.model (drop (y * (d.width * 2)) d.shadow) x y w h p)
          (λ narrow.
            if-cases P (not bounce_ok) (λ failed. Keeps-refl p)
              (λ ok. partial-Keeps lz4 ret m p.model _ x y w h p)))

-- An update keeps the idle state, and of an idle device also what is in flight and what waits.
pub request_update-Keeps :
    (lz4 : Compressor) (ret : Ret) (m : Memory) (bounce_ok : Bool) (d : Drm) (x y w h : ℕ)
    (force : Bool) (p : Pipe)
    → Keeps p (request_update lz4 ret m bounce_ok d x y w h force p).1
unfolding request_update
request_update-Keeps lz4 ret m bounce_ok d x y w h force p =
    let P : Ret × Pipe → Type 0 = λ r. Keeps p r.1 in
    if-cases P (d.blanked && not force) (λ dark. Keeps-refl p)
      (λ shown.
        if-cases P d.disable_partial
          (λ whole. update-Keeps lz4 ret m bounce_ok d 0 0 d.width d.height p)
          (λ part. update-Keeps lz4 ret m bounce_ok d x y w h p))
