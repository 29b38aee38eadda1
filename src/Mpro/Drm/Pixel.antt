-- ===== src/Mpro/Drm/Pixel.antt =====
-- drm/mpro_drm_color.c: the look-up tables of the DRM child and the conversion of pixels.
use packages.Base.{ℕ, ◌+◌, ◌*◌, ◌/◌, ◌%◌, Bool, true, false, ◌==◌, ltb, if◌then◌else◌}
use packages.Mpro.Drm.Gamma.{pow_lut}

-- MPRO_BRIGHTNESS_MAX.
abbrev pub brightness_max : ℕ
brightness_max = 100

-- Three tables of 256 levels, as functions of the channel and the level.
abbrev pub Lut : Type 0
Lut = ℕ → ℕ → ℕ

-- The colour state of `struct mpro_drm`.
pub record Color : Type 0 where
  pub lut : Lut
  pub lut_combined : Lut
  pub gamma_valid : Bool
  pub brightness : ℕ

-- `mpro_drm__rebuild_combined_lut`: every entry of the three tables.
unfoldable pub rebuild_combined_lut : Color → Color
rebuild_combined_lut s = record s {
  lut_combined = λ c i.
      let v = if s.gamma_valid then s.lut c i else i in
      (if ltb s.brightness brightness_max then v * s.brightness / brightness_max else v) % 256;
}

-- `mpro_drm__build_power_lut`.
unfoldable pub build_power_lut : ℕ → Color → Color
unfolding rebuild_combined_lut
build_power_lut g_x100 s =
    if g_x100 == 100
    then rebuild_combined_lut (record s { gamma_valid = false })
    else rebuild_combined_lut (record s { gamma_valid = true; lut = λ c i. pow_lut i g_x100 })

-- `mpro_drm__connector_set_property` for the brightness property: a 64-bit value cut to 32 bits.
unfoldable pub set_brightness : ℕ → Color → Color
unfolding rebuild_combined_lut
set_brightness val s = rebuild_combined_lut (record s { brightness = val % 4294967296 })

-- Eight-bit channels to a 5-6-5 pixel.
abbrev pub pack565 : ℕ → ℕ → ℕ → ℕ
pack565 r g b = r / 8 * 2048 + g / 4 * 32 + b / 8

-- One pixel of `mpro_drm__convert_xrgb8888_to_rgb565`.
unfoldable pub convert_xrgb8888 : Lut → Bool → ℕ → ℕ
convert_xrgb8888 lut transform px =
    let r = px / 65536 % 256 in
    let g = px / 256 % 256 in
    let b = px % 256 in if transform then pack565 (lut 0 r) (lut 1 g) (lut 2 b) else pack565 r g b

-- One pixel of `mpro_drm__copy_rgb565`.
unfoldable pub copy_rgb565 : Lut → Bool → ℕ → ℕ
copy_rgb565 lut transform px =
    if transform
    then pack565 (lut 0 (px / 2048 % 32)) (lut 1 (px / 32 % 64)) (lut 2 (px % 32))
    else px
