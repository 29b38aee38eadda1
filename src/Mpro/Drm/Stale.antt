-- ===== src/Mpro/Drm/Stale.antt =====
-- drm/mpro_drm_pipe.c, mpro_pm.c and mpro_pipeline.c together: frames that are drawn while the device is
-- idle, and a device that is forced active through sysfs.
use packages.Base.{
  ℕ, ◌%◌, ◌≡◌, ◌∙◌, Bool, true, false, Option, none, some, List, [], ◌∷◌, not, if-cases, arith,
}
use packages.Mpro.Pm.Device.{Device}
use packages.Mpro.Pm.Work.{force_active}
use packages.Mpro.Drm.Copy.{Framebuffer, Clip, Copied, failed, copied, fault, clip_valid}
use packages.Mpro.Drm.Keeps.{Keeps, Keeps-refl, Keeps-trans, request_update-Keeps}
use packages.Mpro.Drm.Child.{
  Screen, Kernel, IntRect, Plane, Crtc, set_shadow, push, push_copied, fb_mark_dirty, clamp_rect,
  int_valid,
}
use packages.Mpro.Drm.Kms.{
  arm_pageflip, color_step, damage_rect, draw_damage, update_fb, update_plane, pipe_update,
}
use packages.Mpro.Drm.Held.{Each, Each-map, Each-some}

module _ {S : Type 0} where
  -- The pipeline keeps what decides which frames are shown.
  abbrev pub SameFrames : Screen S → Screen S → Type 0
  SameFrames s t = Keeps s.device.pipe t.device.pipe

  push_same :
      (k : Kernel) (c : Clip) (force : Bool) (s : Screen S) → SameFrames s (push k c force s)
  unfolding push
  push_same k c force s =
      request_update-Keeps k.lz4 k.submit_ret k.memory k.bounce_ok s.child.drm _ _ _ _ force
        s.device.pipe

  copied_same :
      (k : Kernel) (c : Clip) (r : Copied) (s : Screen S)
      → Each (SameFrames s) (push_copied k c r s)
  unfolding push_copied
  copied_same k c (failed ret) s = Keeps-refl s.device.pipe
  copied_same k c (copied bytes) s = push_same k c false (set_shadow bytes s)
  copied_same k c fault s = tt

  mark_same :
      (k : Kernel) (fb : Framebuffer) (r : IntRect) (s : Screen S)
      → Each (SameFrames s) (fb_mark_dirty k fb r s)
  unfolding fb_mark_dirty
  mark_same k fb r s =
      let same = Keeps-refl s.device.pipe in
      if-cases (Each (SameFrames s)) (not k.entered) (λ gone. same)
        (λ there.
          if-cases (Each (SameFrames s)) (not (int_valid r)) (λ bad. same)
            (λ good.
              if-cases (Each (SameFrames s)) (not (clip_valid (clamp_rect s.child.drm r)))
                (λ empty. same) (λ ok. copied_same k _ _ s)))

  draw_same :
      (k : Kernel) (fb : Framebuffer) (damages : List IntRect) (s : Screen S)
      → Each (SameFrames s) (draw_damage k fb damages s)
  unfolding draw_damage
  draw_same k fb [] s = Keeps-refl s.device.pipe
  draw_same k fb (d ∷ ds) s = mark_same k fb (damage_rect s.child (d ∷ ds)) s

  fb_same :
      (k : Kernel) (rotation : ℕ) (o : Option Framebuffer) (damages : List IntRect) (s : Screen S)
      → Each (SameFrames s) (update_fb k rotation o damages s)
  unfolding update_fb
  fb_same k rotation none damages s = Keeps-refl s.device.pipe
  fb_same k rotation (some fb) damages s =
      if-cases (Each (SameFrames s)) fb.mapped
        (λ mapped.
          draw_same k fb damages
            (record s { child = record s.child { plane_rotation = rotation % 65536 } }))
        (λ null. Keeps-refl s.device.pipe)

  plane_same :
      (k : Kernel) (o : Option Plane) (damages : List IntRect) (s : Screen S)
      → Each (SameFrames s) (update_plane k o damages s)
  unfolding update_plane
  plane_same k none damages s = Keeps-refl s.device.pipe
  plane_same k (some p) damages s = fb_same k p.rotation p.fb damages s

  arm_device : (k : Kernel) (s : Screen S) → (arm_pageflip k s).device ≡ s.device
  unfolding arm_pageflip
  arm_device k s = ground arith

  update_same :
      (k : Kernel) (crtc : Crtc) (plane : Option Plane) (damages : List IntRect) (s : Screen S)
      → Each (SameFrames s) (pipe_update k crtc plane damages s)
  unfolding pipe_update
  update_same k crtc plane damages s =
      Each-map (SameFrames s) (SameFrames s) (arm_pageflip k) _ (λ t h. rw (arm_device k t) h)
        (plane_same k plane damages (color_step k crtc s))

  -- A sequence of updates of the pipe.
  pub data Updates (s : Screen S) : Screen S → Type 0 where
    unchanged : Updates s s
    then_update :
        {t u : Screen S} (k : Kernel) (crtc : Crtc) (plane : Option Plane) (damages : List IntRect)
        → Updates s t
        → pipe_update k crtc plane damages t ≡ some u
        → Updates s u

  Updates-same : {s t : Screen S} → Updates s t → SameFrames s t
  Updates-same {s} unchanged = Keeps-refl s.device.pipe
  Updates-same (then_update {t} k crtc plane damages before e) =
      Keeps-trans (Updates-same before)
        (Each-some (SameFrames t) _ (update_same k crtc plane damages t) e)

  forced :
      (now : ℕ) (d : Device S)
      → let q = (force_active now d).pipe in
        (q.is_idle ≡ false)
        × (q.in_flight ≡ d.pipe.in_flight)
        × (q.current_xfer ≡ d.pipe.current_xfer)
        × (q.pending_xfer ≡ d.pipe.pending_xfer)
  unfolding force_active
  forced now d = ground arith

  -- Frames that are drawn while the device is idle are lost when it is then forced active through
  -- sysfs: over any sequence of updates of the pipe, the device is active afterwards, and on the wire and
  -- waiting is what was there before the updates.
  pub force_active-stale :
      {s t : Screen S} (now : ℕ)
      → s.device.pipe.is_idle ≡ true
      → Updates s t
      → let q = (force_active now t.device).pipe in
        (q.is_idle ≡ false)
        × (q.in_flight ≡ s.device.pipe.in_flight)
        × (q.current_xfer ≡ s.device.pipe.current_xfer)
        × (q.pending_xfer ≡ s.device.pipe.pending_xfer)
  force_active-stale {s} {t} now idle updates =
      let same = Updates-same updates in
      let f = forced now t.device in
      (f.0, f.1 ∙ same.in_flight idle, f.2 ∙ same.current idle, f.3 ∙ same.pending idle)
