-- ===== src/Beada/Drm/Pipe.antt =====
-- drm/beada-drm-plane.c, beada-drm-pm.c, beada-drm-color.c, beada-drm-kms.c and beada-drm-sysfs.c: the
-- child's callbacks, with the parent's calls that they make. Page-flip events are in Vblank.
use packages.Base.{
  ℕ, ◌*◌, Bool, true, false, Option, none, some, List, [], ◌∷◌, ◌++◌, not, ◌||◌, ◌==◌, ltb, get_or,
  replicate, if◌then◌else◌,
}
use packages.Base.Errno.{Ret, einval}
use packages.Mpro.Rotation.Mode.{angle_bits, rotate_90, rotate_270}
use packages.Mpro.Drm.Pixel.{Lut}
use packages.Mpro.Pipeline.Submit.{le16}
use packages.Beada.Link.Device.{Link, Host, Bulk}
use packages.Beada.Link.Frames.{send_frame, flush_frame_transfer}
use packages.Beada.Link.Power.{pipe_active, pipe_idle}
use packages.Beada.Drm.Blit.{Blit, Rect, blit_rect}

-- `struct beada_drm_dev`; the shadow buffer is its 16-bit pixels, `panel_w` and `panel_h` are
-- `panel->width` and `panel->height`.
pub record Screen : Type 0 where
  pub panel_w : ℕ
  pub panel_h : ℕ
  pub width : ℕ
  pub height : ℕ
  pub rotation : ℕ
  pub noblank : Bool
  pub shadow : List ℕ
  pub shadow_valid : Bool
  pub lut : Lut
  pub gamma_valid : Bool

-- What a commit brings: whether there is a framebuffer on an active CRTC of a device that is there,
-- whether it is mapped, the gamma table if it changed (16 bits a channel), and the framebuffer.
pub record Commit : Type 0 where
  pub has_fb : Bool
  pub active : Bool
  pub entered : Bool
  pub mapped : Bool
  pub color_mgmt_changed : Bool
  pub gamma_lut : Option Lut
  pub fb_w : ℕ
  pub fb_h : ℕ
  pub is_xrgb : Bool
  pub pitch : ℕ
  pub bytes : List ℕ
  pub bgr : Bool

-- `beada_apply_color_mgmt`; `extract` is `drm_color_lut_extract` to 8 bits.
unfoldable pub apply_color_mgmt : (ℕ → ℕ) → Bool → Option Lut → Screen → Screen
apply_color_mgmt extract false gamma_lut s = s
apply_color_mgmt extract true none s = record s { gamma_valid = false }
apply_color_mgmt extract true (some table) s = record s {
  lut = λ c i. extract (table c i);
  gamma_valid = true;
}

-- The arguments of `beada_blit_rect` in `beada_pipe_update`, and the rectangle.
unfoldable pub blit_of : Screen → Commit → Blit
blit_of s k = record {
  out_w = s.panel_w;
  out_h = s.panel_h;
  src_w = s.width;
  src_h = s.height;
  rot = s.rotation;
  is_xrgb = k.is_xrgb;
  pitch = k.pitch;
  bytes = k.bytes;
  gamma = if s.gamma_valid then some s.lut else none;
  bgr = k.bgr;
}

abbrev pub whole : Commit → Rect
whole k = record { x1 = 0; y1 = 0; x2 = k.fb_w; y2 = k.fb_h }

-- The buffer of a commit.
unfoldable pub draw : Commit → Screen → Screen
draw k s = record s { shadow = blit_rect (blit_of s k) (whole k) s.shadow; shadow_valid = true }

-- The bytes of 16-bit pixels.
unfoldable pub pixel_list : List ℕ → List ℕ
pixel_list [] = []
pixel_list (p ∷ ps) = le16 p ++ pixel_list ps

-- `beada_send_frame` of a buffer of the panel's size: `shadow_size` bytes.
unfoldable pub send_buffer : List ℕ → Screen → Link → Link
send_buffer pixels s l =
    (send_frame (pixel_list pixels) (s.panel_w * s.panel_h * 2) s.panel_w s.panel_h l).1

-- `blank_buf`.
abbrev pub blank_buf : Screen → List ℕ
blank_buf s = replicate (s.panel_w * s.panel_h) 0

-- `beada_pipe_enable`; `pm` is what `usb_autopm_get_interface` returns.
unfoldable pub pipe_enable : Ret → Screen → Link → Screen × Link
pipe_enable pm s l = (s, (pipe_active pm l).1)

-- `beada_pipe_disable`; the transfers of the frame that is drained, and of the blank one.
unfoldable pub pipe_disable : Host → Bulk → Bulk → Bulk → Bulk → Screen → Link → Screen × Link
pipe_disable host tag body blank_tag blank_body s l =
    let drained = flush_frame_transfer host tag body l in
    let cleared =
      if not s.noblank
      then flush_frame_transfer host blank_tag blank_body (send_buffer (blank_buf s) s drained)
      else drained in
    (record s { shadow_valid = false }, pipe_idle cleared)

-- `beada_pipe_update`.
unfoldable pub pipe_update : Host → (ℕ → ℕ) → Bulk → Bulk → Commit → Screen → Link → Screen × Link
pipe_update host extract tag body k s l =
    if not k.has_fb || (not k.active || not k.entered)
    then (s, l)
    else let drained = flush_frame_transfer host tag body l in
      let colored = apply_color_mgmt extract k.color_mgmt_changed k.gamma_lut s in
      if not k.mapped
      then (colored, drained)
      else let drawn = draw k colored in (drawn, send_buffer drawn.shadow drawn drained)

-- `beada_drm_resume_handler`.
unfoldable pub drm_resume_handler : Screen → Link → Screen × Link
drm_resume_handler s l =
    if s.shadow_valid
    then (s, send_buffer s.shadow s l)
    else if not s.noblank
    then (s, send_buffer (blank_buf s) s l)
    else (s, l)

-- `beada_rotation_swaps_dims`.
unfoldable pub rotation_swaps_dims : ℕ → Bool
rotation_swaps_dims rot = angle_bits rot == rotate_90 || angle_bits rot == rotate_270

-- `beada_apply_rotation`: the EDID is computed from the state.
unfoldable pub apply_rotation : ℕ → Screen → Screen
apply_rotation rotation s =
    if s.rotation == rotation
    then s
    else let swap = rotation_swaps_dims rotation in
      record s {
        rotation = rotation;
        width = if swap then s.panel_h else s.panel_w;
        height = if swap then s.panel_w else s.panel_h;
      }

-- `beada_rotation_map`.
abbrev pub rotation_map : List ℕ
rotation_map = 1 ∷ 2 ∷ 4 ∷ 8 ∷ 17 ∷ 18 ∷ 20 ∷ 24 ∷ []

-- `rotation_store`; `ret` and `val` are what `kstrtouint` answers. The result is an error, or 0 where
-- the source returns the count.
unfoldable pub rotation_store : Ret → ℕ → Screen → Ret × Screen
rotation_store ret val s =
    if not (ret == 0)
    then (ret, s)
    else if not (ltb val 8)
    then (einval, s)
    else (0, apply_rotation (get_or rotation_map val 0) s)

-- `noblank_store`; `ret` and `val` are what `kstrtobool` answers.
unfoldable pub noblank_store : Ret → Bool → Screen → Ret × Screen
noblank_store ret val s = if not (ret == 0) then (ret, s) else (0, record s { noblank = val })
