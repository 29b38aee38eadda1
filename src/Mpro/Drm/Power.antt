-- ===== src/Mpro/Drm/Power.antt =====
-- drm/mpro_drm_main.c, drm/mpro_drm_sysfs.c and the connector of drm/mpro_drm_pipe.c: the start of the
-- child, suspend and resume, the stores and the properties. A parser of the kernel, such as kstrtou32,
-- answers with a number, or not. A store returns an errno, or 0 where the source returns the count.
use packages.Base.{
  ℕ, ◌+◌, ◌*◌, ◌%◌, ◌^◌, ◌/◌, Bool, true, false, Option, none, some, List, [], ◌∷◌, not, ◌&&◌, ◌||◌,
  ◌==◌, ltb, replicate, get_or, if◌then◌else◌,
}
use packages.Base.Errno.{Ret, einval}
use packages.Mpro.Model.{ModelInfo}
use packages.Mpro.Rotation.Mode.{rotate_0, rotation_swaps_dims}
use packages.Mpro.Backlight.Parse.{parse_gamma_x100}
use packages.Mpro.Drm.Pixel.{Color, brightness_max, rebuild_combined_lut, build_power_lut}
use packages.Mpro.Drm.Update.{Drm}
use packages.Mpro.Drm.Child.{Child, Screen, Kernel, push, whole, set_shadow}
use packages.Mpro.Drm.Kms.{enable_vblank, disable_vblank}

-- The sides of the picture at a rotation, as the probe and `mpro_drm__apply_rotation` choose them.
unfoldable pub turned_sides : ModelInfo → ℕ → ℕ × ℕ
turned_sides model rotation =
    if rotation_swaps_dims rotation
    then (model.height, model.width)
    else (model.width, model.height)

-- The size of the shadow buffer of `mpro_drm__data_alloc`; MPRO_BPP is 16.
abbrev pub block_size : ModelInfo → ℕ
block_size model = model.width * model.height * 16 / 8 + model.margin

-- The child that `mpro_drm__probe` and `mpro_drm__data_alloc` set up; `partial_off` is the module's
-- parameter. The fields that are not set are zero from the allocation.
unfoldable pub probed_child : ModelInfo → Bool → Child
probed_child model partial_off =
    let sides = turned_sides model model.native_rotation in
    record {
      drm = record {
        width = sides.0;
        height = sides.1;
        shadow = replicate (block_size model) 0;
        shadow_size = block_size model;
        blanked = false;
        disable_partial = if ltb 0 model.margin then true else partial_off;
      };
      color = rebuild_combined_lut (record {
        lut = λ ch i. 0;
        lut_combined = λ ch i. 0;
        gamma_valid = false;
        brightness = brightness_max;
      });
      native_rotation = model.native_rotation;
      plane_rotation = rotate_0;
      active_held = false;
      vblank_enabled = false;
      timer_active = false;
      vblank_was_enabled_pre_suspend = false;
      suspended = false;
      gamma_x100 = 100;
    }

-- `drm_display_mode`, as far as it is filled in.
pub record Mode : Type 0 where
  pub hdisplay : ℕ
  pub hsync_start : ℕ
  pub hsync_end : ℕ
  pub htotal : ℕ
  pub vdisplay : ℕ
  pub vsync_start : ℕ
  pub vsync_end : ℕ
  pub vtotal : ℕ
  pub clock : ℕ

-- `mpro_drm__connector_get_modes`, where the mode is allocated.
unfoldable pub connector_mode : Drm → Mode
connector_mode d = record {
  hdisplay = d.width;
  hsync_start = d.width + 40;
  hsync_end = d.width + 40 + 48;
  htotal = d.width + 40 + 48 + 40;
  vdisplay = d.height;
  vsync_start = d.height + 13;
  vsync_end = d.height + 13 + 3;
  vtotal = d.height + 13 + 3 + 29;
  clock = 29729;
}

-- `mpro_drm__crtc_atomic_check`; `gamma_length` is the length of the CRTC's table, if there is one.
unfoldable pub gamma_length_ok : Option ℕ → Bool
gamma_length_ok none = true
gamma_length_ok (some n) = n == 256

unfoldable pub crtc_atomic_check : Bool → Bool → Option ℕ → Ret
crtc_atomic_check enable active gamma_length =
    if not enable || not active then 0 else if not (gamma_length_ok gamma_length) then einval else 0

-- The result of `mpro_drm__dumb_create` before the library's function, with the pitch and the size.
unfoldable pub dumb_create : ℕ → ℕ → ℕ → Option (ℕ × ℕ)
dumb_create bpp width height =
    let pitch = (if bpp == 16 then width * 2 else width * 4) % 4294967296 in
    if not (bpp == 16) && not (bpp == 32) then none else some (pitch, pitch * height % 4294967296)

-- `mpro_drm__rotation_map`.
abbrev rotation_map : List ℕ
rotation_map = 1 ∷ 2 ∷ 4 ∷ 8 ∷ 17 ∷ 18 ∷ 20 ∷ 24 ∷ []

module _ {S : Type 0} where
  abbrev pub with_child : (Child → Child) → Screen S → Screen S
  with_child f s = record s { child = f s.child }

  -- `mpro_drm__suspend`: the vblank, and the rest.
  unfoldable pub pause_vblank : Screen S → Screen S
  pause_vblank s =
      let was = s.child.vblank_enabled in
      let noted = with_child (λ c. record c { vblank_was_enabled_pre_suspend = was }) s in
      if was then disable_vblank noted else noted

  unfoldable pub suspend : Kernel → Screen S → Screen S
  suspend k s =
      let wiped = set_shadow (replicate s.child.drm.shadow_size 0) (pause_vblank s) in
      if s.child.suspended
      then s
      else with_child (λ c. record c { suspended = true }) (push k (whole s) false wiped)

  -- `mpro_drm__resume`.
  unfoldable pub resume : Kernel → Screen S → Screen S
  resume k s =
      let awake = push k (whole s) false (with_child (λ c. record c { suspended = false }) s) in
      if not s.child.suspended
      then s
      else if s.child.vblank_was_enabled_pre_suspend
      then enable_vblank awake
      else awake

  -- `mpro_drm__apply_rotation`.
  unfoldable pub apply_rotation : Kernel → ModelInfo → ℕ → Screen S → Screen S
  apply_rotation k model rotation s =
      let sides = turned_sides model rotation in
      let turned =
        with_child
          (λ c. record c {
            native_rotation = rotation;
            drm = record c.drm {
              width = sides.0;
              height = sides.1;
              shadow = replicate c.drm.shadow_size 0;
            };
          })
          s in
      if s.child.native_rotation == rotation then s else push k (whole turned) false turned

  -- `rotation_store`.
  unfoldable pub rotation_store : Kernel → ModelInfo → Option ℕ → Screen S → Ret × Screen S
  rotation_store k model none s = (einval, s)
  rotation_store k model (some val) s =
      if not (ltb val 8)
      then (einval, s)
      else (0, apply_rotation k model (get_or rotation_map val 0) s)

  abbrev pub with_color : (Color → Color) → Screen S → Screen S
  with_color f s = with_child (λ c. record c { color = f c.color }) s

  -- `brightness_store`.
  unfoldable pub brightness_store : Option ℕ → Screen S → Ret × Screen S
  brightness_store none s = (einval, s)
  brightness_store (some val) s =
      if ltb brightness_max val
      then (einval, s)
      else (0, with_color (λ c. rebuild_combined_lut (record c { brightness = val })) s)

  -- `mpro_drm__connector_set_property`; the first argument says whether the property is the brightness,
  -- which is cut to 32 bits.
  unfoldable pub connector_set_property : Bool → ℕ → Screen S → Ret × Screen S
  connector_set_property is_brightness val s =
      if is_brightness
      then (0, with_color (λ c. rebuild_combined_lut (record c { brightness = val % 2 ^ 32 })) s)
      else (einval, s)

  -- `gamma_store` of the child, for the answer of `mpro_parse_gamma_x100`.
  unfoldable pub store_gamma : Ret × Option ℕ → Screen S → Ret × Screen S
  store_gamma (ret, none) s = (ret, s)
  store_gamma (ret, some g) s =
      if not (ret == 0)
      then (ret, s)
      else if ltb g 50 || ltb 400 g
      then (einval, s)
      else (0, with_color (build_power_lut g) (with_child (λ c. record c { gamma_x100 = g }) s))

  unfoldable pub gamma_store : (List ℕ → List ℕ) → List ℕ → Screen S → Ret × Screen S
  gamma_store scan buf s = store_gamma (parse_gamma_x100 scan buf) s

  -- `gamma_lut_write`; MPRO_DRM_LUT_SIZE is 768.
  unfoldable pub gamma_lut_write : List ℕ → ℕ → ℕ → Screen S → Ret × Screen S
  gamma_lut_write buf off count s = if not (off == 0) || not (count == 768) then (einval, s) else (
    0,
    with_color
        (λ c.
          rebuild_combined_lut
            (record c { gamma_valid = true; lut = λ ch i. get_or buf (ch * 256 + i) 0 }))
        s,
  )

  -- `disable_partial_store`.
  unfoldable pub disable_partial_store : Option Bool → Screen S → Ret × Screen S
  disable_partial_store none s = (einval, s)
  disable_partial_store (some val) s =
      (0, with_child (λ c. record c { drm = record c.drm { disable_partial = val } }) s)
