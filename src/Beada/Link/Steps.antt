-- ===== src/Beada/Link/Steps.antt =====
-- The parent device under any sequence of calls by its children, the workqueue, sysfs and the USB
-- core.
use packages.Base.{
  ℕ, ◌*◌, ◌≤◌, ◌≡◌, ◌⊎◌, refl, true, false, List, [], ◌∷◌, ◌++◌, ◌%◌, arith, not, ◌&&◌, ◌||◌, ◌==◌,
  length, length-take, if◌then◌else◌, Bool-cases, if-cases, inl, inr,
}
use packages.Base.Errno.{Ret}
use packages.Beada.Checksum.{sl_fill_tag}
use packages.Beada.Link.Device.{Packet, to_status, piece, Link, Host, Bulk, bulk_out, check_alive}
use packages.Beada.Link.Frames.{
  send_pixels, after_start, pl_send, count_frame, xfer_worker, send_frame, flush_frame_transfer,
}
use packages.Beada.Link.Status.{
  Time, locked_transact, reset_packet, panellink_reset, put_autopm, with_autopm, set_brightness,
  brightness_packet, sync_time, time_bytes,
}
use packages.Beada.Link.Power.{usb_suspend, wake_bus, usb_resume, pipe_active, pipe_idle}
use packages.Beada.Link.Conversation.{
  Conversation, commanded, commanded_in_part, resumed, IsPartial, transfer-Conversation, IsTalking,
  pl_send-IsTalking,
}

-- The driver is in step with the device, and the frame that is staged has the size that is
-- announced with it.
pub record IsInStep (host : Host) (l : Link) : Type 0 where
  pub talking : IsTalking host l
  pub sized : l.xfer_len ≡ l.xfer_w * l.xfer_h * 2
  pub filled : l.xfer_len ≤ length l.xfer_src
  pub staged : (l.work && (l.xfer_w == 0 || l.xfer_h == 0)) ≡ false

-- Two states with the same staged frame.
pub record IsSameFrame (l m : Link) : Type 0 where
  pub src : m.xfer_src ≡ l.xfer_src
  pub len : m.xfer_len ≡ l.xfer_len
  pub w : m.xfer_w ≡ l.xfer_w
  pub h : m.xfer_h ≡ l.xfer_h
  pub work : m.work ≡ l.work

-- What a command may change: one packet more on the wire, or the first `n` bytes of it, and the
-- references on the interface.
abbrev Speaks : ℕ → List ℕ → Link → Link → Type 0
Speaks n c l m =
    IsSameFrame l m
    × (m.cached_w ≡ l.cached_w)
    × (m.cached_h ≡ l.cached_h)
    × ((m.wire ≡ l.wire)
        ⊎ ((m.wire ≡ to_status c ∷ l.wire) ⊎ (m.wire ≡ piece (to_status c) n ∷ l.wire)))

locked_transact-Speaks :
    (out : Bulk) (c : List ℕ) (len : ℕ) (l : Link)
    → Speaks out.transferred c l (locked_transact out (to_status c) len l).1
unfolding locked_transact bulk_out
locked_transact-Speaks out c len l = ground arith

with_autopm-Speaks :
    (pm : Ret) (out : Bulk) (c : List ℕ) (len : ℕ) (l : Link)
    → Speaks out.transferred c l (with_autopm pm out (to_status c) len l).1
unfolding with_autopm put_autopm locked_transact bulk_out
with_autopm-Speaks pm out c len l = ground arith

abbrev brightness_bytes : Host → ℕ → List ℕ
brightness_bytes host level = sl_fill_tag host.big_endian 3 21 ++ level % 256 ∷ []

abbrev reset_bytes : Host → List ℕ
reset_bytes host = sl_fill_tag host.big_endian 2 20

set_brightness-Speaks :
    (host : Host) (pm : Ret) (out : Bulk) (level : ℕ) (l : Link)
    → Speaks out.transferred (brightness_bytes host level) l (set_brightness host pm out level l).1
unfolding set_brightness brightness_packet
set_brightness-Speaks host pm out level l =
    ground (arith, with_autopm-Speaks pm out (brightness_bytes host level) 21 l)

sync_time-Speaks :
    (host : Host) (now : Time) (pm : Ret) (out : Bulk) (l : Link)
    → Speaks out.transferred (time_bytes host now) l (sync_time host now pm out l).1
unfolding sync_time
sync_time-Speaks host now pm out l =
    ground (arith, with_autopm-Speaks pm out (time_bytes host now) 36 l)

panellink_reset-Speaks :
    (host : Host) (out : Bulk) (l : Link)
    → Speaks out.transferred (reset_bytes host) l (panellink_reset host out l).1
unfolding panellink_reset reset_packet
panellink_reset-Speaks host out l =
    ground (arith, locked_transact-Speaks out (reset_bytes host) 20 l)

module _ {host : Host} where
  Speaks-Conversation :
      {ps : List Packet} {w h : ℕ} (qs : List Packet) (n : ℕ) (c : List ℕ)
      → (qs ≡ ps) ⊎ ((qs ≡ to_status c ∷ ps) ⊎ (qs ≡ piece (to_status c) n ∷ ps))
      → Conversation host ps w h
      → Conversation host qs w h
  Speaks-Conversation qs n c (inl e) talk = transfer-Conversation e refl refl talk
  Speaks-Conversation qs n c (inr (inl e)) talk =
      transfer-Conversation e refl refl (commanded c talk)
  Speaks-Conversation qs n c (inr (inr e)) talk =
      transfer-Conversation e refl refl (commanded_in_part c n talk)

  Speaks-IsInStep :
      (n : ℕ) (c : List ℕ) (l m : Link) → Speaks n c l m → IsInStep host l → IsInStep host m
  Speaks-IsInStep n c l m (same, ew, eh, said) h = record {
    talking = transfer-Conversation refl ew eh (Speaks-Conversation m.wire n c said h.talking);
    sized = ground (arith, same, h.sized);
    filled = rw (same.len, same.src) h.filled;
    staged = rw (same.work, same.w, same.h) h.staged;
  }

count_frame-IsTalking :
    (host : Host) (r : Ret × Link) → IsTalking host r.1 → IsTalking host (count_frame r)
unfolding count_frame
count_frame-IsTalking host (ret, l) h = elim (Bool-cases (ret == 0)) [
  | inl e ↦ rw e h
  | inr e ↦ rw e h
]

worker-SameFrame :
    (host : Host) (tag body : Bulk) (l : Link)
    → IsSameFrame (record l { work = false }) (xfer_worker host tag body l)
unfolding xfer_worker count_frame pl_send after_start send_pixels bulk_out
worker-SameFrame host tag body l = ground arith

module _ (host : Host) where
  worker-IsTalking :
      (tag body : Bulk) (l : Link)
      → l.work ≡ true
      → IsPartial tag 270
      → IsInStep host l
      → IsTalking host (xfer_worker host tag body l)
  unfolding xfer_worker
  worker-IsTalking tag body l queued part h =
      let idle = record l { work = false } in
      elim (Bool-cases (check_alive idle == 0)) [
        | inl alive ↦ rw alive (
            count_frame-IsTalking host _ (
              pl_send-IsTalking host tag body l.xfer_src l.xfer_len l.xfer_w l.xfer_h idle
                (ground (arith, h.staged)) (ground (arith, h.staged))
                (omega (arith, length-take l.xfer_len l.xfer_src, h.sized, h.filled)) part
                h.talking))
        | inr dead ↦ rw dead (count_frame-IsTalking host (check_alive idle, idle) h.talking)
      ]

  worker-IsInStep :
      (tag body : Bulk) (l : Link)
      → l.work ≡ true
      → IsPartial tag 270
      → IsInStep host l
      → IsInStep host (xfer_worker host tag body l)
  worker-IsInStep tag body l queued part h =
      let same = worker-SameFrame host tag body l in
      record {
        talking = worker-IsTalking tag body l queued part h;
        sized = rw (same.len, same.w, same.h) h.sized;
        filled = rw (same.len, same.src) h.filled;
        staged = rw (same.work) refl;
      }

  send_frame-IsInStep :
      (buf : List ℕ) (len w g : ℕ) (l : Link)
      → len ≤ length buf
      → IsInStep host l
      → IsInStep host (send_frame buf len w g l).1
  unfolding send_frame
  send_frame-IsInStep buf len w g l fits h =
      elim (Bool-cases (w == 0 || (g == 0 || not (len == w * g * 2)))) [
        | inl bad ↦
            rw bad (record {
              talking = h.talking;
              sized = h.sized;
              filled = h.filled;
              staged = h.staged;
            })
        | inr ok ↦ rw ok (record {
          talking = h.talking;
          sized = ground (arith, ok);
          filled = fits;
          staged = ground (arith, ok);
        })
      ]

  flush-IsInStep :
      (tag body : Bulk) (l : Link)
      → IsPartial tag 270
      → IsInStep host l
      → IsInStep host (flush_frame_transfer host tag body l)
  unfolding flush_frame_transfer
  flush-IsInStep tag body l part h =
      if-cases (IsInStep host) l.work (λ queued. worker-IsInStep tag body l queued part h)
        (λ none_queued. h)

  suspend-IsInStep :
      (tag body : Bulk) (l : Link)
      → IsPartial tag 270
      → IsInStep host l
      → IsInStep host (usb_suspend host tag body l)
  unfolding usb_suspend
  suspend-IsInStep tag body l part h =
      let quiet : IsInStep host (record l { resume_work = false }) = record {
        talking = h.talking;
        sized = h.sized;
        filled = h.filled;
        staged = h.staged;
      } in
      let drained = flush-IsInStep tag body (record l { resume_work = false }) part quiet in
      record {
        talking = drained.talking;
        sized = drained.sized;
        filled = drained.filled;
        staged = drained.staged;
      }

  -- A device that has forgotten its dimensions, while the reset has been said or not.
  forget-IsInStep :
      (n : ℕ) (c : List ℕ) (l m : Link)
      → IsInStep host l
      → Speaks n c (wake_bus l) m
      → IsInStep host (record m { cached_w = 0; cached_h = 0 })
  unfolding wake_bus
  forget-IsInStep n c l m h (same, ew, eh, said) = record {
    talking = Speaks-Conversation m.wire n c said (resumed h.talking);
    sized = ground (arith, same, h.sized);
    filled = rw (same.len, same.src) h.filled;
    staged = rw (same.work, same.w, same.h) h.staged;
  }

  sync-IsInStep :
      (now : Time) (clock : Bulk) (l : Link)
      → IsInStep host l
      → IsInStep host (if l.has_statuslink then (sync_time host now 0 clock l).1 else l)
  sync-IsInStep now clock l h =
      if-cases (IsInStep host) l.has_statuslink
        (λ on.
          Speaks-IsInStep clock.transferred (time_bytes host now) l (sync_time host now 0 clock l).1
            (sync_time-Speaks host now 0 clock l) h)
        (λ off. h)

  resume-IsInStep :
      (now : Time) (reset clock : Bulk) (l : Link)
      → IsInStep host l
      → IsInStep host (usb_resume host now reset clock l)
  unfolding usb_resume
  resume-IsInStep now reset clock l h =
      let m = (panellink_reset host reset (wake_bus l)).1 in
      let forgotten =
        forget-IsInStep reset.transferred (reset_bytes host) l m h
          (panellink_reset-Speaks host reset (wake_bus l)) in
      let synced = sync-IsInStep now clock (record m { cached_w = 0; cached_h = 0 }) forgotten in
      record {
        talking = synced.talking;
        sized = synced.sized;
        filled = synced.filled;
        staged = synced.staged;
      }

-- One call. The child's buffer holds at least the bytes that it announces; the worker runs only when
-- it is queued; and a START tag whose transfer fails has not arrived in full.
pub data Step (host : Host) (l : Link) : Link → Type 0 where
  frame : (buf : List ℕ) (len w h : ℕ) → len ≤ length buf → Step host l (send_frame buf len w h l).1
  works :
      (tag body : Bulk)
      → l.work ≡ true
      → IsPartial tag 270
      → Step host l (xfer_worker host tag body l)
  flushes :
      (tag body : Bulk) → IsPartial tag 270 → Step host l (flush_frame_transfer host tag body l)
  brightness :
      (pm : Ret) (out : Bulk) (level : ℕ) → Step host l (set_brightness host pm out level l).1
  clock : (now : Time) (pm : Ret) (out : Bulk) → Step host l (sync_time host now pm out l).1
  suspends : (tag body : Bulk) → IsPartial tag 270 → Step host l (usb_suspend host tag body l)
  resumes : (now : Time) (reset out : Bulk) → Step host l (usb_resume host now reset out l)
  opens : (pm : Ret) → Step host l (pipe_active pm l).1
  closes : Step host l (pipe_idle l)
  unplugged : Step host l (record l { disconnected = true })

pub data Run (host : Host) (l : Link) : Link → Type 0 where
  start : Run host l l
  more : {m n : Link} → Run host l m → Step host m n → Run host l n

Step-IsInStep : {host : Host} {l m : Link} → Step host l m → IsInStep host l → IsInStep host m
unfolding pipe_active pipe_idle
Step-IsInStep {host} {l} (frame buf len w g fits) h = send_frame-IsInStep host buf len w g l fits h
Step-IsInStep {host} {l} (works tag body queued part) h =
    worker-IsInStep host tag body l queued part h
Step-IsInStep {host} {l} (flushes tag body part) h = flush-IsInStep host tag body l part h
Step-IsInStep {host} {l} (brightness pm out level) h =
    Speaks-IsInStep out.transferred (brightness_bytes host level) l _
      (set_brightness-Speaks host pm out level l) h
Step-IsInStep {host} {l} (clock now pm out) h =
    Speaks-IsInStep out.transferred (time_bytes host now) l _ (sync_time-Speaks host now pm out l) h
Step-IsInStep {host} {l} (suspends tag body part) h = suspend-IsInStep host tag body l part h
Step-IsInStep {host} {l} (resumes now reset out) h = resume-IsInStep host now reset out l h
Step-IsInStep {host} {l} (opens pm) h = elim (Bool-cases (pm == 0)) [
  | inl up ↦
      rw up (record { talking = h.talking; sized = h.sized; filled = h.filled; staged = h.staged })
  | inr down ↦ rw down h
]
Step-IsInStep closes h = record {
  talking = h.talking;
  sized = h.sized;
  filled = h.filled;
  staged = h.staged;
}
Step-IsInStep unplugged h = record {
  talking = h.talking;
  sized = h.sized;
  filled = h.filled;
  staged = h.staged;
}

-- From a state in step with the device, over any sequence of frames, worker runs, brightness and clock
-- commands, suspends and resumes, whatever the transfers answer, if a START tag whose transfer fails has
-- not arrived in full: the device receives what it expects, whole or, where a transfer fails, in part. It
-- gets one whole START tag in a session, before any pixels, only pixels of exactly the size that the tag
-- announced, or the beginning of such pixels, and a new tag only while it has no whole one or after the
-- bus has come back. The cached dimensions are those that the device has latched.
pub Run-IsInStep : {host : Host} {l m : Link} → IsInStep host l → Run host l m → IsInStep host m
Run-IsInStep h start = h
Run-IsInStep h (more r s) = Step-IsInStep s (Run-IsInStep h r)
