-- ===== src/Mpro/Drm/Callbacks.antt =====
-- drm/mpro_drm_pipe.c: the callbacks of the pipe keep the invariant.
use packages.Base.{
  ℕ, ◌%◌, ◌<◌, ◌^◌, ◌≡◌, refl, Bool, true, false, Option, none, some, List, [], ◌∷◌, ◌&&◌,
  replicate, if-cases, arith,
}
use packages.Mpro.Pm.Device.{Device}
use packages.Mpro.Pm.Work.{active_put, go_on, go_off}
use packages.Mpro.Pm.Trace.{IsSound, enable, disable, Event-IsSound}
use packages.Mpro.Drm.Copy.{Framebuffer}
use packages.Mpro.Drm.Child.{sent, Screen, Kernel, IntRect, Plane, Crtc, set_shadow, push, whole}
use packages.Mpro.Drm.Kms.{
  disable_vblank, arm_pageflip, finish_pageflip, push_black_frame, set_blanked, take_active,
  pipe_disable, set_plane_rotation, full_rect, enable_fb, plane_fb, color_step, enabled,
  pipe_enable, damage_rect, draw_damage, update_fb, update_plane, pipe_update,
}
use packages.Mpro.Drm.Held.{
  IsLoose, IsKept, Each, Each-map, push-IsLoose, same-IsLoose, push_kept, mark_kept, finish-IsLoose,
  flipped, arm_kept, color_kept,
}

and_false : (b : Bool) → (b && false) ≡ false
and_false true = refl
and_false false = refl

module _ {S : Type 0} (start n : ℕ) where
  black-IsLoose :
      (k : Kernel) (s : Screen S) → IsLoose start n s → IsLoose start n (push_black_frame k s)
  unfolding push_black_frame
  black-IsLoose k s h =
      let black = set_shadow (replicate s.child.drm.shadow_size 0) s in
      let pushed = push k (whole s) true black in
      let black_ok : IsLoose start n black = same-IsLoose start n s black.child refl h.timer h in
      let pushed_ok : IsLoose start n pushed =
        push-IsLoose start n k (whole s) true black black_ok in
      let back = set_shadow s.child.drm.shadow pushed in
      if-cases (IsLoose start n) k.black_ok
        (λ ok. same-IsLoose start n pushed back.child refl pushed_ok.timer pushed_ok) (λ failed. h)

  off-IsLoose : (s : Screen S) → IsLoose start n s → IsLoose start n (disable_vblank s)
  unfolding disable_vblank
  off-IsLoose s h = same-IsLoose start n s _ refl refl h

  notified-IsSound :
      (d : Device S) (children : S) (held : Bool)
      → IsSound start d held
      → IsSound start (record d { children = children }) held
  notified-IsSound d children held h = ground arith

  put_false : (held : Bool) (d : Device S) → (active_put held d).1 ≡ false
  unfolding active_put
  put_false held d = ground arith

  pub disable_kept :
      (k : Kernel) (s : Screen S)
      → IsKept start n s
      → (IsKept start n (pipe_disable k s)) × ((pipe_disable k s).event ≡ false)
  unfolding pipe_disable disable_vblank
  disable_kept k s h =
      let dark = set_blanked true s in
      let black =
        black-IsLoose k dark (same-IsLoose start n s dark.child refl h.loose.timer h.loose) in
      let finished = finish-IsLoose start n (push_black_frame k dark) black in
      let off = off-IsLoose (finish_pageflip (push_black_frame k dark)) finished.0 in
      let last = disable_vblank (finish_pageflip (push_black_frame k dark)) in
      let told =
        notified-IsSound last.device (go_off last.device).children last.child.active_held
          off.sound in
      let free = put_false last.child.active_held (go_off last.device) in
      (
        record {
          loose = record {
            sound = Event-IsSound disable told;
            timer = refl;
            refs = off.refs;
            events = off.events;
          };
          exclusive = rw free (and_false _);
        },
        finished.1,
      )

  pub turn_kept :
      (rotation : ℕ) (s : Screen S)
      → IsKept start n s
      → IsKept start n (record s { child = record s.child { plane_rotation = rotation } })
  turn_kept rotation s h = record {
    loose = same-IsLoose start n s _ refl h.loose.timer h.loose;
    exclusive = h.exclusive;
  }

  plane_turned :
      (plane : Option Plane) (s : Screen S)
      → IsKept start n s
      → IsKept start n (set_plane_rotation plane s)
  unfolding set_plane_rotation
  plane_turned none s h = h
  plane_turned (some p) s h = turn_kept (p.rotation % 65536) s h

  enable_fb_kept :
      (k : Kernel) (was : Bool) (o : Option Framebuffer) (s : Screen S)
      → IsKept start n s
      → Each (IsKept start n) (enable_fb k was o s)
  unfolding enable_fb
  enable_fb_kept k was none s h =
      if-cases (IsKept start n) was (λ dark. push_kept start n k (whole s) false s h) (λ lit. h)
  enable_fb_kept k was (some fb) s h =
      if-cases (Each (IsKept start n)) fb.mapped
        (λ mapped. mark_kept start n k fb (full_rect fb) s h) (λ null. h)

  enabled_kept :
      (s : Screen S) → IsKept start n s → (IsKept start n (enabled s)) × ((enabled s).event ≡ false)
  unfolding enabled finish_pageflip
  enabled_kept s h =
      let told : Screen S = record s { device = go_on s.device } in
      let P : Screen S → Type 0 = λ t. (IsKept start n t) × (t.event ≡ false) in
      let sound =
        notified-IsSound s.device (go_on s.device).children s.child.active_held h.loose.sound in
      let told_ok : IsKept start n told = record {
        loose = record {
          sound = sound;
          timer = h.loose.timer;
          refs = h.loose.refs;
          events = h.loose.events;
        };
        exclusive = h.exclusive;
      } in
      let events = h.loose.events in
      if-cases P s.event
        (λ event.
          flipped start n told false (sent ∷ s.flips) s.vblank_refs h.loose.refs
            (ground (arith, event, events)) refl told_ok)
        (λ idle. (told_ok, idle))

  pub enable_kept :
      (k : Kernel) (crtc : Crtc) (plane : Option Plane) (s : Screen S)
      → k.now < 2 ^ 64
      → s.child.active_held ≡ false
      → IsKept start n s
      → Each (λ t. (IsKept start n t) × (t.event ≡ false)) (pipe_enable k crtc plane s)
  unfolding pipe_enable
  enable_kept k crtc plane s now free h =
      let active = set_plane_rotation plane (set_blanked false (take_active k s)) in
      let lit = set_blanked false (take_active k s) in
      let lit_ok : IsKept start n lit = record {
        loose = record {
          sound = Event-IsSound (enable k.now now free) h.loose.sound;
          timer = h.loose.timer;
          refs = h.loose.refs;
          events = h.loose.events;
        };
        exclusive = refl;
      } in
      let active_ok = plane_turned plane lit lit_ok in
      Each-map (IsKept start n) (λ t. (IsKept start n t) × (t.event ≡ false)) enabled _ enabled_kept
        (enable_fb_kept k s.child.drm.blanked (plane_fb plane) (color_step k crtc active)
          (color_kept start n k crtc active active_ok))

  draw_kept :
      (k : Kernel) (fb : Framebuffer) (damages : List IntRect) (s : Screen S)
      → IsKept start n s
      → Each (IsKept start n) (draw_damage k fb damages s)
  unfolding draw_damage
  draw_kept k fb [] s h = h
  draw_kept k fb (d ∷ ds) s h = mark_kept start n k fb (damage_rect s.child (d ∷ ds)) s h

  fb_kept :
      (k : Kernel) (rotation : ℕ) (o : Option Framebuffer) (damages : List IntRect) (s : Screen S)
      → IsKept start n s
      → Each (IsKept start n) (update_fb k rotation o damages s)
  unfolding update_fb
  fb_kept k rotation none damages s h = h
  fb_kept k rotation (some fb) damages s h =
      if-cases (Each (IsKept start n)) fb.mapped
        (λ mapped. draw_kept k fb damages _ (turn_kept (rotation % 65536) s h))
        (λ null. turn_kept (rotation % 65536) s h)

  plane_kept :
      (k : Kernel) (o : Option Plane) (damages : List IntRect) (s : Screen S)
      → IsKept start n s
      → Each (IsKept start n) (update_plane k o damages s)
  unfolding update_plane
  plane_kept k none damages s h = h
  plane_kept k (some p) damages s h = fb_kept k p.rotation p.fb damages s h

  pub update_kept :
      (k : Kernel) (crtc : Crtc) (plane : Option Plane) (damages : List IntRect) (s : Screen S)
      → IsKept start n s
      → Each (λ t. (IsKept start n t) × (t.event ≡ false)) (pipe_update k crtc plane damages s)
  unfolding pipe_update
  update_kept k crtc plane damages s h =
      Each-map (IsKept start n) (λ t. (IsKept start n t) × (t.event ≡ false)) (arm_pageflip k) _
        (arm_kept start n k)
        (plane_kept k plane damages (color_step k crtc s) (color_kept start n k crtc s h))
