-- ===== src/Mpro/Drm/Kms.antt =====
-- drm/mpro_drm_pipe.c: the callbacks of the pipe. The calls of the parent are those of Mpro/Pipeline,
-- Mpro/Screen and Mpro/Pm.
use packages.Base.{
  ℕ, ◌-◌, ◌%◌, ◌==◌, Bool, true, false, Option, none, some, List, [], ◌∷◌, not, replicate, suc,
  if◌then◌else◌,
}
use packages.Base.Int.{pos, negsuc}
use mathlib.Core.Option
use packages.Mpro.Rotation.Mode.{rotate_0, compose_rotation}
use packages.Mpro.Pm.Work.{active_get, active_put, go_on, go_off, wake_work}
use packages.Mpro.Drm.Copy.{Framebuffer}
use packages.Mpro.Drm.Child.{
  Child, armed, sent, Screen, Kernel, IntRect, Plane, Crtc, apply_color_mgmt, min_ℤ, max_ℤ,
  set_shadow, push, whole, fb_mark_dirty, screen_wake,
}

abbrev int_max : ℕ
int_max = 2147483647

abbrev empty_bb : IntRect
empty_bb = record { x1 = pos int_max; y1 = pos int_max; x2 = negsuc int_max; y2 = negsuc int_max }

-- The loop over the damaged rectangles.
unfoldable pub bounding_box : List IntRect → IntRect → IntRect
bounding_box [] bb = bb
bounding_box (d ∷ ds) bb = bounding_box ds (record {
  x1 = min_ℤ bb.x1 d.x1;
  y1 = min_ℤ bb.y1 d.y1;
  x2 = max_ℤ bb.x2 d.x2;
  y2 = max_ℤ bb.y2 d.y2;
})

abbrev pub full_rect : Framebuffer → IntRect
full_rect fb = record { x1 = pos 0; y1 = pos 0; x2 = pos fb.width; y2 = pos fb.height }

abbrev pub plane_fb : Option Plane → Option Framebuffer
plane_fb none = none
plane_fb (some p) = p.fb

-- The frame of `mpro_drm__pipe_update`: the box of the damage, or the whole panel where the picture is
-- rotated.
abbrev pub damage_rect : Child → List IntRect → IntRect
damage_rect c damages =
    if not (compose_rotation c.native_rotation c.plane_rotation == rotate_0)
    then record { x1 = pos 0; y1 = pos 0; x2 = pos c.drm.width; y2 = pos c.drm.height }
    else bounding_box damages empty_bb

module _ {S : Type 0} where
  -- `mpro_drm__vblank_timer`: does the timer go on, and the state after it.
  unfoldable pub vblank_timer : Screen S → Bool × Screen S
  vblank_timer s =
      if not s.child.vblank_enabled
      then (false, record s { child = record s.child { timer_active = false } })
      else (true, s)

  -- `mpro_drm__crtc_enable_vblank` and `mpro_drm__crtc_disable_vblank`.
  unfoldable pub enable_vblank : Screen S → Screen S
  enable_vblank s = record s {
    child = record s.child { vblank_enabled = true; timer_active = true };
  }

  unfoldable pub disable_vblank : Screen S → Screen S
  disable_vblank s = record s {
    child = record s.child { vblank_enabled = false; timer_active = false };
  }

  -- `mpro_drm__arm_pageflip`; an armed event takes the reference over.
  unfoldable pub arm_pageflip : Kernel → Screen S → Screen S
  arm_pageflip k s =
      let got = record s {
        vblank_refs = if k.vblank_ok then suc s.vblank_refs else s.vblank_refs;
      } in
      let put = record s { vblank_refs = got.vblank_refs - 1 } in
      if s.event
      then if k.vblank_ok
        then record put { event = false; flips = armed ∷ s.flips }
        else record s { event = false; flips = sent ∷ s.flips }
      else if k.vblank_ok
      then put
      else s

  -- `mpro_drm__finish_pageflip`.
  unfoldable pub finish_pageflip : Screen S → Screen S
  finish_pageflip s = if s.event then record s { event = false; flips = sent ∷ s.flips } else s

  -- The black frame of `mpro_drm__pipe_disable`.
  unfoldable pub push_black_frame : Kernel → Screen S → Screen S
  push_black_frame k s =
      if k.black_ok
      then set_shadow s.child.drm.shadow
          (push k (whole s) true (set_shadow (replicate s.child.drm.shadow_size 0) s))
      else s

  abbrev pub set_blanked : Bool → Screen S → Screen S
  set_blanked b s = record s { child = record s.child { drm = record s.child.drm { blanked = b } } }

  -- `mpro_active_get` and `mpro_active_put` with the child's flag.
  abbrev pub take_active : Kernel → Screen S → Screen S
  take_active k s =
      let r = active_get k.now s.device in
      record s { device = r.0; child = record s.child { active_held = r.1 } }

  abbrev pub drop_active : Screen S → Screen S
  drop_active s =
      let r = active_put s.child.active_held s.device in
      record s { device = r.0; child = record s.child { active_held = r.1 } }

  -- `mpro_drm__pipe_disable`; `drm_crtc_vblank_off` calls the callback that disables the vblank.
  unfoldable pub pipe_disable : Kernel → Screen S → Screen S
  pipe_disable k s =
      let off = disable_vblank (finish_pageflip (push_black_frame k (set_blanked true s))) in
      drop_active (record off { device = go_off off.device })

  -- The rotation of the plane, and the frame of `mpro_drm__pipe_enable`.
  unfoldable pub set_plane_rotation : Option Plane → Screen S → Screen S
  set_plane_rotation none s = s
  set_plane_rotation (some p) s = record s {
    child = record s.child { plane_rotation = p.rotation % 65536 };
  }

  unfoldable pub enable_fb : Kernel → Bool → Option Framebuffer → Screen S → Option (Screen S)
  enable_fb k was_blanked none s = some (if was_blanked then push k (whole s) false s else s)
  enable_fb k was_blanked (some fb) s =
      if fb.mapped then fb_mark_dirty k fb (full_rect fb) s else some s

  abbrev pub color_step : Kernel → Crtc → Screen S → Screen S
  color_step k crtc s = record s {
    child = record s.child { color = apply_color_mgmt k.lut_extract crtc s.child.color };
  }

  -- The end of `mpro_drm__pipe_enable`.
  unfoldable pub enabled : Screen S → Screen S
  enabled s = finish_pageflip (record s { device = go_on s.device })

  -- `mpro_drm__pipe_enable`.
  unfoldable pub pipe_enable : Kernel → Crtc → Option Plane → Screen S → Option (Screen S)
  pipe_enable k crtc plane s =
      let active = set_plane_rotation plane (set_blanked false (take_active k s)) in
      Option.map enabled
        (enable_fb k s.child.drm.blanked (plane_fb plane) (color_step k crtc active))

  unfoldable pub draw_damage : Kernel → Framebuffer → List IntRect → Screen S → Option (Screen S)
  draw_damage k fb [] s = some s
  draw_damage k fb (d ∷ ds) s = fb_mark_dirty k fb (damage_rect s.child (d ∷ ds)) s

  unfoldable pub update_fb :
      Kernel → ℕ → Option Framebuffer → List IntRect → Screen S → Option (Screen S)
  update_fb k rotation none damages s = some s
  update_fb k rotation (some fb) damages s =
      let turned = record s { child = record s.child { plane_rotation = rotation % 65536 } } in
      if fb.mapped then draw_damage k fb damages turned else some turned

  unfoldable pub update_plane : Kernel → Option Plane → List IntRect → Screen S → Option (Screen S)
  update_plane k none damages s = some s
  update_plane k (some p) damages s = update_fb k p.rotation p.fb damages s

  -- `mpro_drm__pipe_update`.
  unfoldable pub pipe_update :
      Kernel → Crtc → Option Plane → List IntRect → Screen S → Option (Screen S)
  pipe_update k crtc plane damages s =
      Option.map (arm_pageflip k) (update_plane k plane damages (color_step k crtc s))

  -- `mpro_wake_work` with the listener of the child.
  unfoldable pub wake_screen : Kernel → Screen S → Screen S
  wake_screen k s =
      let awake = record s { device = wake_work k.now s.device } in
      if s.device.pipe.is_idle then screen_wake k awake else awake
