-- ===== src/Mpro/Drm/Held.antt =====
-- drm/mpro_drm_pipe.c and mpro_pm.c together: the active reference of the child, its vblank timer and the
-- page-flip events over any sequence of calls.
use packages.Base.{
  ℕ, ◌+◌, ◌≡◌, refl, Bool, false, Option, none, some, List, ◌∷◌, not, ◌&&◌, length, flag, if-cases,
  arith,
}
use mathlib.Core.Option
use packages.Mpro.Pipeline.Xfer.{Pipe}
use packages.Mpro.Pm.Device.{Device}
use packages.Mpro.Pm.Trace.{IsSound}
use packages.Mpro.Drm.Copy.{Framebuffer, Clip, Copied, failed, copied, fault, clip_valid}
use packages.Mpro.Drm.Keeps.{Keeps, request_update-Keeps}
use packages.Mpro.Drm.Child.{
  Child, Flip, armed, sent, Screen, Kernel, IntRect, Crtc, set_shadow, push, push_copied,
  fb_mark_dirty, clamp_rect, int_valid,
}
use packages.Mpro.Drm.Kms.{arm_pageflip, finish_pageflip, color_step}

-- The invariant but for the last part, for a device that was initialised at the clock reading `start` and
-- `n` commits with an event: the idle management is sound for the reference of the child, the hrtimer
-- runs exactly while the vblank is enabled, the driver holds no vblank reference, and each event is still
-- to be answered or was answered once.
pub record IsLoose {S : Type 0} (start n : ℕ) (s : Screen S) : Type 0 where
  pub sound : IsSound start s.device s.child.active_held
  pub timer : s.child.timer_active ≡ s.child.vblank_enabled
  pub refs : s.vblank_refs ≡ 0
  pub events : length s.flips + flag s.event ≡ n

-- A blanked child holds no reference.
pub record IsKept {S : Type 0} (start n : ℕ) (s : Screen S) : Type 0 where
  pub loose : IsLoose start n s
  pub exclusive : (s.child.drm.blanked && s.child.active_held) ≡ false

-- What holds of the state, if there was no fault.
abbrev pub Each {ℓ} : {A : Type ℓ} → (A → Type 0) → Option A → Type 0
Each P none = Unit {0}
Each P (some a) = P a

pub Each-map {ℓ} :
    {A : Type ℓ} (P Q : A → Type 0) (f : A → A) (o : Option A)
    → ((a : A) → P a → Q (f a))
    → Each P o
    → Each Q (Option.map f o)
Each-map P Q f none h k = tt
Each-map P Q f (some a) h k = h a k

pub Each-some {ℓ} :
    {A : Type ℓ} (P : A → Type 0) (o : Option A) {a : A} → Each P o → o ≡ some a → P a
Each-some P o h e = rw e at h

module _ {S : Type 0} (start n : ℕ) where
  pipe-IsSound :
      (d : Device S) (q : Pipe) (held : Bool)
      → Keeps d.pipe q
      → IsSound start d held
      → IsSound start (record d { pipe = q }) held
  pipe-IsSound d q held k h = ground (arith, k.is_idle)

  pub push-IsLoose :
      (k : Kernel) (c : Clip) (force : Bool) (s : Screen S)
      → IsLoose start n s
      → IsLoose start n (push k c force s)
  unfolding push
  push-IsLoose k c force s h = record {
    sound =
        pipe-IsSound s.device _ s.child.active_held
          (request_update-Keeps k.lz4 k.submit_ret k.memory k.bounce_ok s.child.drm _ _ _ _ force
            s.device.pipe)
          h.sound;
    timer = h.timer;
    refs = h.refs;
    events = h.events;
  }

  -- Changes of fields that the invariant does not read.
  pub same-IsLoose :
      (s : Screen S) (c : Child)
      → c.active_held ≡ s.child.active_held
      → c.timer_active ≡ c.vblank_enabled
      → IsLoose start n s
      → IsLoose start n (record s { child = c })
  same-IsLoose s c held timer h = record {
    sound = rw held h.sound;
    timer = timer;
    refs = h.refs;
    events = h.events;
  }

  pub push_kept :
      (k : Kernel) (c : Clip) (force : Bool) (s : Screen S)
      → IsKept start n s
      → IsKept start n (push k c force s)
  unfolding push
  push_kept k c force s h = record {
    loose = push-IsLoose k c force s h.loose;
    exclusive = h.exclusive;
  }

  shadow_kept :
      (bytes : List ℕ) (s : Screen S) → IsKept start n s → IsKept start n (set_shadow bytes s)
  shadow_kept bytes s h = record {
    loose = same-IsLoose s _ refl h.loose.timer h.loose;
    exclusive = h.exclusive;
  }

  copied_kept :
      (k : Kernel) (c : Clip) (r : Copied) (s : Screen S)
      → IsKept start n s
      → Each (IsKept start n) (push_copied k c r s)
  unfolding push_copied
  copied_kept k c (failed ret) s h = h
  copied_kept k c (copied bytes) s h =
      push_kept k c false (set_shadow bytes s) (shadow_kept bytes s h)
  copied_kept k c fault s h = tt

  pub mark_kept :
      (k : Kernel) (fb : Framebuffer) (r : IntRect) (s : Screen S)
      → IsKept start n s
      → Each (IsKept start n) (fb_mark_dirty k fb r s)
  unfolding fb_mark_dirty
  mark_kept k fb r s h =
      if-cases (Each (IsKept start n)) (not k.entered) (λ gone. h)
        (λ there.
          if-cases (Each (IsKept start n)) (not (int_valid r)) (λ bad. h)
            (λ good.
              if-cases (Each (IsKept start n)) (not (clip_valid (clamp_rect s.child.drm r)))
                (λ empty. h) (λ ok. copied_kept k _ _ s h)))

  pub finish-IsLoose :
      (s : Screen S)
      → IsLoose start n s
      → (IsLoose start n (finish_pageflip s)) × ((finish_pageflip s).event ≡ false)
  unfolding finish_pageflip
  finish-IsLoose s h =
      let P : Screen S → Type 0 = λ t. (IsLoose start n t) × (t.event ≡ false) in
      if-cases P s.event
        (λ event. (
          record {
            sound = h.sound;
            timer = h.timer;
            refs = h.refs;
            events = ground (arith, event, h.events);
          },
          refl,
        ))
        (λ none. (h, none))

  -- The references and the events change, and nothing else.
  pub flipped :
      (s : Screen S) (event : Bool) (flips : List Flip) (refs : ℕ)
      → refs ≡ 0
      → length flips + flag event ≡ n
      → event ≡ false
      → IsKept start n s
      → (IsKept start n (record s { event = event; flips = flips; vblank_refs = refs }))
        × (event ≡ false)
  flipped s event flips refs no_refs events answered h = (
    record {
      loose = record {
        sound = h.loose.sound;
        timer = h.loose.timer;
        refs = no_refs;
        events = events;
      };
      exclusive = h.exclusive;
    },
    answered,
  )

  pub arm_kept :
      (k : Kernel) (s : Screen S)
      → IsKept start n s
      → (IsKept start n (arm_pageflip k s)) × ((arm_pageflip k s).event ≡ false)
  unfolding arm_pageflip
  arm_kept k s h =
      let P : Screen S → Type 0 = λ t. (IsKept start n t) × (t.event ≡ false) in
      let refs = h.loose.refs in
      let events = h.loose.events in
      if-cases P s.event
        (λ event.
          if-cases P k.vblank_ok
            (λ ok.
              flipped s false (armed ∷ s.flips) _ (ground (arith, ok, refs))
                (ground (arith, event, events)) refl h)
            (λ not_ok.
              flipped s false (sent ∷ s.flips) _ refs (ground (arith, event, events)) refl h))
        (λ idle.
          if-cases P k.vblank_ok
            (λ ok. flipped s s.event s.flips _ (ground (arith, ok, refs)) events idle h)
            (λ not_ok. (h, idle)))

  pub color_kept :
      (k : Kernel) (crtc : Crtc) (s : Screen S)
      → IsKept start n s
      → IsKept start n (color_step k crtc s)
  color_kept k crtc s h = record {
    loose = same-IsLoose s _ refl h.loose.timer h.loose;
    exclusive = h.exclusive;
  }
