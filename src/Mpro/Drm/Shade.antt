-- ===== src/Mpro/Drm/Shade.antt =====
-- drm/mpro_drm_color.c: what brightness does to a pixel.
use packages.Base.{ℕ, ◌*◌, ◌/◌, ◌%◌, ◌≤◌, ◌<◌, ◌≡◌, true, false, arith}
use native.Mathlib.Nat.{mul-le-mul_left}
use packages.Mpro.Drm.Pixel.{Color, set_brightness, convert_xrgb8888, copy_rgb565}

-- The three fields of a 5-6-5 pixel.
abbrev pub red : ℕ → ℕ
red px = px / 2048

abbrev pub green : ℕ → ℕ
green px = px / 32 % 64

abbrev pub blue : ℕ → ℕ
blue px = px % 32

scaled_le : (v b : ℕ) → b < 100 → v * b / 100 ≤ v
scaled_le v b h = omega (arith, mul-le-mul_left v h)

-- A 32-bit pixel, at a brightness below 100 and no gamma: each channel is scaled by the brightness
-- and then cut to its 5 or 6 bits, and stays in its field of the 16-bit pixel.
pub convert_xrgb8888-scaled :
    (s : Color) (val px : ℕ)
    → s.gamma_valid ≡ false
    → val < 100
    → let out = convert_xrgb8888 (set_brightness val s).lut_combined true px in
      (red out ≡ px / 65536 % 256 * val / 100 / 8)
      × (green out ≡ px / 256 % 256 * val / 100 / 4)
      × (blue out ≡ px % 256 * val / 100 / 8)
unfolding convert_xrgb8888 set_brightness
convert_xrgb8888-scaled s val px gamma low = ground (
  arith,
  scaled_le (px / 65536 % 256) val,
  scaled_le (px / 256 % 256) val,
  scaled_le (px % 256) val,
)

-- A 16-bit pixel is looked up by its 5 and 6 bit channels as they are, in tables of 256 levels: at
-- any brightness below 100 without gamma every pixel becomes almost black, red and blue at most 3
-- of 31 and green at most 15 of 63.
pub copy_rgb565-dark :
    (s : Color) (val px : ℕ)
    → s.gamma_valid ≡ false
    → val < 100
    → let out = copy_rgb565 (set_brightness val s).lut_combined true px in
      (red out ≤ 3) × (green out ≤ 15) × (blue out ≤ 3)
unfolding copy_rgb565 set_brightness
copy_rgb565-dark s val px gamma low =
    ground
      (arith, scaled_le (px / 2048 % 32) val, scaled_le (px / 32 % 64) val, scaled_le (px % 32) val)
