-- ===== src/Mpro/Drm/Child.antt =====
-- drm/mpro_drm_pipe.c: the DRM child and its frames.
use packages.Base.{
  ℕ, ◌-◌, ◌%◌, Bool, true, false, Option, none, some, List, not, ◌&&◌, min, if◌then◌else◌,
}
use packages.Base.Int.{ℤ, pos_part, ltb_ℤ}
use packages.Base.Errno.{Ret}
use packages.Mpro.Rotation.Mode.{compose_rotation}
use packages.Mpro.Pipeline.Alloc.{Memory, Compressor}
use packages.Mpro.Pm.Device.{Device}
use packages.Mpro.Drm.Pixel.{Color, Lut, rebuild_combined_lut}
use packages.Mpro.Drm.Update.{Drm, request_update}
use packages.Mpro.Drm.Copy.{
  Framebuffer, Clip, clip_valid, Target, Copied, failed, copied, fault, copy_frame, source_of,
}

-- `struct mpro_drm`: the fields of `Drm` and `Color`, and the others that change. `timer_active` says that
-- the hrtimer of the vblank is running.
pub record Child : Type 0 where
  pub drm : Drm
  pub color : Color
  pub native_rotation : ℕ
  pub plane_rotation : ℕ
  pub active_held : Bool
  pub vblank_enabled : Bool
  pub timer_active : Bool
  pub vblank_was_enabled_pre_suspend : Bool
  pub suspended : Bool
  pub gamma_x100 : ℕ

-- What becomes of a page-flip event.
pub data Flip : Type 0 where
  armed : Flip
  sent : Flip

-- The child, the device of its parent, the event of the commit that runs, what became of the events, the
-- latest first, and the vblank references that the driver holds itself.
pub record Screen (S : Type 0) : Type 0 where
  pub child : Child
  pub device : Device S
  pub event : Bool
  pub flips : List Flip
  pub vblank_refs : ℕ

-- What the kernel answers during one callback: is the DRM device plugged, the clock, the submission, the
-- allocations, the reference of the vblank; the compressor, and two conversions of the DRM library.
pub record Kernel : Type 0 where
  pub entered : Bool
  pub now : ℕ
  pub submit_ret : Ret
  pub memory : Memory
  pub bounce_ok : Bool
  pub temp_ok : Bool
  pub black_ok : Bool
  pub vblank_ok : Bool
  pub lz4 : Compressor
  pub plain : ℕ → ℕ
  pub lut_extract : ℕ → ℕ

-- `drm_rect`.
pub record IntRect : Type 0 where
  pub x1 : ℤ
  pub y1 : ℤ
  pub x2 : ℤ
  pub y2 : ℤ

-- The plane's state, and the colour fields of the CRTC's.
pub record Plane : Type 0 where
  pub rotation : ℕ
  pub fb : Option Framebuffer

pub record Crtc : Type 0 where
  pub color_mgmt_changed : Bool
  pub gamma_lut : Option Lut

unfoldable pub target_of : Child → Target
target_of c = record {
  width = c.drm.width;
  height = c.drm.height;
  effective = compose_rotation c.native_rotation c.plane_rotation;
  shadow = c.drm.shadow;
}

abbrev load_lut : (ℕ → ℕ) → Option Lut → Color → Color
load_lut extract none c = record c { gamma_valid = false }
load_lut extract (some lut) c = record c { gamma_valid = true; lut = λ ch i. extract (lut ch i) }

-- `mpro_drm__apply_color_mgmt`; the table of the CRTC has 256 entries of 16 bits for each channel.
unfoldable pub apply_color_mgmt : (ℕ → ℕ) → Crtc → Color → Color
apply_color_mgmt extract crtc c =
    if not crtc.color_mgmt_changed
    then c
    else rebuild_combined_lut (load_lut extract crtc.gamma_lut c)

-- `min` and `max` of two ints.
abbrev pub min_ℤ : ℤ → ℤ → ℤ
min_ℤ a b = if ltb_ℤ b a then b else a

abbrev pub max_ℤ : ℤ → ℤ → ℤ
max_ℤ a b = if ltb_ℤ a b then b else a

abbrev pub int_valid : IntRect → Bool
int_valid r = ltb_ℤ r.x1 r.x2 && ltb_ℤ r.y1 r.y2

-- The four clamps of `mpro_drm__fb_mark_dirty`. An upper end below 0 becomes 0, which the next test
-- refuses as well.
unfoldable pub clamp_rect : Drm → IntRect → Clip
clamp_rect d r = record {
  x1 = pos_part r.x1;
  y1 = pos_part r.y1;
  x2 = min (pos_part r.x2) d.width;
  y2 = min (pos_part r.y2) d.height;
}

module _ {S : Type 0} where
  abbrev pub set_shadow : List ℕ → Screen S → Screen S
  set_shadow bytes s = record s {
    child = record s.child { drm = record s.child.drm { shadow = bytes } };
  }

  -- `mpro_drm__request_update` on the child; the result is only logged by its callers.
  unfoldable pub push : Kernel → Clip → Bool → Screen S → Screen S
  push k c force s =
      let r =
        request_update k.lz4 k.submit_ret k.memory k.bounce_ok s.child.drm (c.x1 % 65536)
          (c.y1 % 65536) ((c.x2 - c.x1) % 65536) ((c.y2 - c.y1) % 65536) force s.device.pipe in
      record s { device = record s.device { pipe = r.1 } }

  abbrev pub whole : Screen S → Clip
  whole s = record { x1 = 0; y1 = 0; x2 = s.child.drm.width; y2 = s.child.drm.height }

  -- `mpro_drm__fb_mark_dirty` after the copy; none stands for an access outside a buffer.
  unfoldable pub push_copied : Kernel → Clip → Copied → Screen S → Option (Screen S)
  push_copied k c (failed ret) s = some s
  push_copied k c (copied bytes) s = some (push k c false (set_shadow bytes s))
  push_copied k c fault s = none

  -- `mpro_drm__fb_mark_dirty`.
  unfoldable pub fb_mark_dirty : Kernel → Framebuffer → IntRect → Screen S → Option (Screen S)
  fb_mark_dirty k fb r s =
      let c = clamp_rect s.child.drm r in
      if not k.entered
      then some s
      else if not (int_valid r)
      then some s
      else if not (clip_valid c)
      then some s
      else push_copied k c
          (copy_frame k.temp_ok (source_of k.plain s.child.color fb) (target_of s.child) c) s

  -- `mpro_drm__screen_wake`; the shadow buffer is there from the probe on.
  unfoldable pub screen_wake : Kernel → Screen S → Screen S
  screen_wake k s = if not s.child.drm.blanked then push k (whole s) true s else s
