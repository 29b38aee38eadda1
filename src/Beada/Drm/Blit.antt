-- ===== src/Beada/Drm/Blit.antt =====
-- drm/beada-drm-plane.c: from the framebuffer to the panel's buffer.
use packages.Base.{
  ℕ, zero, suc, ◌+◌, ◌-◌, ◌*◌, ◌/◌, ◌%◌, min, Bool, Option, none, some, List, ◌==◌, get_or, set,
  if◌then◌else◌,
}
use packages.Base.Int.{ℤ, pos_part, neg_part, sub_ℕ}
use packages.Mpro.Rotation.Mode.{rotate_90, rotate_180, rotate_270, angle_bits, has_reflect_x}
use packages.Mpro.Drm.Pixel.{Lut, pack565}

-- What `beada_blit_rect` reads beside the rectangle: the panel's and the picture's dimensions, the
-- rotation, the format, pitch and bytes of the framebuffer, the gamma tables and the order of colours.
pub record Blit : Type 0 where
  pub out_w : ℕ
  pub out_h : ℕ
  pub src_w : ℕ
  pub src_h : ℕ
  pub rot : ℕ
  pub is_xrgb : Bool
  pub pitch : ℕ
  pub bytes : List ℕ
  pub gamma : Option Lut
  pub bgr : Bool

-- `drm_rect`, with y1 ≤ y2 and x1 ≤ x2.
pub record Rect : Type 0 where
  pub x1 : ℕ
  pub y1 : ℕ
  pub x2 : ℕ
  pub y2 : ℕ

-- `tx` and `ty` after the switch of `rotate_coord`.
unfoldable pub turn_coord : Blit → ℕ → ℕ → ℤ × ℤ
turn_coord c sx sy =
    let angle = angle_bits c.rot in
    if angle == rotate_90
    then (sub_ℕ c.src_h (sy + 1), sub_ℕ sx 0)
    else if angle == rotate_180
    then (sub_ℕ c.src_w (sx + 1), sub_ℕ c.src_h (sy + 1))
    else if angle == rotate_270
    then (sub_ℕ sy 0, sub_ℕ c.src_w (sx + 1))
    else (sub_ℕ sx 0, sub_ℕ sy 0)

-- `out_w - 1 - tx`.
abbrev pub reflect : ℕ → ℤ → ℤ
reflect out_w t = sub_ℕ (out_w + neg_part t) (1 + pos_part t)

-- `clamp(t, 0, out - 1)` for a positive `out`.
abbrev pub clamp : ℤ → ℕ → ℕ
clamp t out = min (pos_part t) (out - 1)

-- `rotate_coord`.
unfoldable pub rotate_coord : Blit → ℕ → ℕ → ℕ × ℕ
rotate_coord c sx sy =
    let t = turn_coord c sx sy in
    (clamp (if has_reflect_x c.rot then reflect c.out_w t.0 else t.0) c.out_w, clamp t.1 c.out_h)

-- The index in the panel's buffer.
unfoldable pub shadow_index : Blit → ℕ → ℕ → ℕ
shadow_index c sx sy = let o = rotate_coord c sx sy in o.1 * c.out_w + o.0

-- `bpp`.
abbrev pub pixel_bytes : Blit → ℕ
pixel_bytes c = if c.is_xrgb then 4 else 2

abbrev byte_at : Blit → ℕ → ℕ
byte_at c at = get_or c.bytes at 0

-- `r`, `g` and `b` of the pixel at a position of the framebuffer, before gamma; the upper byte of a
-- 32-bit pixel is not used.
unfoldable pub read_pixel : Blit → ℕ → ℕ × ℕ × ℕ
read_pixel c at =
    let raw = byte_at c at + 256 * byte_at c (at + 1) in
    let r5 = raw / 2048 % 32 in
    let g6 = raw / 32 % 64 in
    let b5 = raw % 32 in
    if c.is_xrgb
    then (byte_at c (at + 2), byte_at c (at + 1), byte_at c at)
    else (r5 * 8 + r5 / 4, g6 * 4 + g6 / 16, b5 * 8 + b5 / 4)

-- `lut_or_linear` for the three channels.
unfoldable pub apply_gamma : Option Lut → ℕ × ℕ × ℕ → ℕ × ℕ × ℕ
apply_gamma none p = p
apply_gamma (some lut) (r, g, b) = (lut 0 r, lut 1 g, lut 2 b)

-- `pack_bgr565` or `pack_rgb565`.
unfoldable pub pack_pixel : Bool → ℕ × ℕ × ℕ → ℕ
pack_pixel bgr (r, g, b) = if bgr then pack565 b g r else pack565 r g b

-- `px` for the pixel at a position of the framebuffer.
unfoldable pub convert_pixel : Blit → ℕ → ℕ
convert_pixel c at = pack_pixel c.bgr (apply_gamma c.gamma (read_pixel c at))

-- The inner loop of `beada_blit_rect`, `n` columns from `sx` on; `at` is `src_row`.
unfoldable pub blit_row : Blit → ℕ → ℕ → ℕ → ℕ → List ℕ → List ℕ
blit_row c zero sx sy at shadow = shadow
blit_row c (suc n) sx sy at shadow =
    blit_row c n (sx + 1) sy (at + pixel_bytes c)
      (set shadow (shadow_index c sx sy) (convert_pixel c at))

-- The outer loop, `n` lines from `sy` on, with `m` columns from `x1` on.
unfoldable pub blit_rows : Blit → ℕ → ℕ → ℕ → ℕ → List ℕ → List ℕ
blit_rows c zero m x1 sy shadow = shadow
blit_rows c (suc n) m x1 sy shadow =
    blit_rows c n m x1 (sy + 1) (blit_row c m x1 sy (sy * c.pitch + x1 * pixel_bytes c) shadow)

-- `beada_blit_rect`.
unfoldable pub blit_rect : Blit → Rect → List ℕ → List ℕ
blit_rect c clip shadow = blit_rows c (clip.y2 - clip.y1) (clip.x2 - clip.x1) clip.x1 clip.y1 shadow
