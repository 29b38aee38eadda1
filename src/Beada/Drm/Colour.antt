-- ===== src/Beada/Drm/Colour.antt =====
-- drm/beada-drm-plane.c: the place and the colour that a pixel of the framebuffer should have on the panel,
-- in words of the panel, and the code's index and conversion against them.
use packages.Base.{
  ℕ, ◌+◌, ◌-◌, ◌*◌, ◌/◌, ◌%◌, ◌<◌, ◌≡◌, refl, Bool, true, false, Option, none, some, List, ◌==◌,
  get_or, if◌then◌else◌, arith,
}
use packages.Mpro.Rotation.Mode.{angle_bits, has_reflect_x}
use packages.Mpro.Rotation.Buffer.{dest_spot}
use packages.Mpro.Drm.Pixel.{Lut}
use packages.Beada.Drm.Blit.{Blit, shadow_index, read_pixel, apply_gamma, pack_pixel, convert_pixel}
use packages.Beada.Drm.Coord.{IsFitting, rotate_coord-dest}

-- The column and the line of the panel, `w` by `h`, for the pixel (x, y) of a picture that is turned by
-- 90, 180 or 270 degrees (the bits 2, 4 and 8) or not at all.
abbrev pub turned_column : ℕ → ℕ → ℕ → ℕ → ℕ
turned_column angle w x y =
    if angle == 2 then w - 1 - y else if angle == 4 then w - 1 - x else if angle == 8 then y else x

abbrev pub turned_line : ℕ → ℕ → ℕ → ℕ → ℕ
turned_line angle h x y =
    if angle == 2 then x else if angle == 4 then h - 1 - y else if angle == 8 then h - 1 - x else y

-- REFLECT_X mirrors the panel's columns.
abbrev pub panel_column : ℕ → ℕ → ℕ → ℕ → ℕ
panel_column rot w x y =
    let column = turned_column (angle_bits rot) w x y in
    if has_reflect_x rot then w - 1 - column else column

-- The place in the panel's buffer, line by line.
abbrev pub place : ℕ → ℕ → ℕ → ℕ → ℕ → ℕ
place rot w h x y = turned_line (angle_bits rot) h x y * w + panel_column rot w x y

pub shadow_index-place :
    (c : Blit) (x y : ℕ)
    → IsFitting c
    → x < c.src_w
    → y < c.src_h
    → shadow_index c x y ≡ place c.rot c.out_w c.out_h x y
unfolding shadow_index dest_spot
shadow_index-place c x y fit hx hy =
    let at = rotate_coord-dest c x y fit hx hy in
    rw (at.0, at.1) (ground (arith, fit.across, fit.down))

-- A level of 5 or of 6 bits as one of 8 bits: its upper bits are repeated below.
abbrev pub widen5 : ℕ → ℕ
widen5 v = v * 8 + v / 4

abbrev pub widen6 : ℕ → ℕ
widen6 v = v * 4 + v / 16

-- Where the pixel (x, y) of the framebuffer begins.
abbrev pub start_of : Bool → ℕ → ℕ → ℕ → ℕ
start_of is_xrgb pitch x y = y * pitch + x * (if is_xrgb then 4 else 2)

-- The 16 bits of an RGB565 pixel.
abbrev pub raw_at : List ℕ → ℕ → ℕ
raw_at bytes at = get_or bytes at 0 + 256 * get_or bytes (at + 1) 0

-- Red, green and blue in 8 bits.
abbrev pub red_at : Bool → List ℕ → ℕ → ℕ
red_at is_xrgb bytes at =
    if is_xrgb then get_or bytes (at + 2) 0 else widen5 (raw_at bytes at / 2048)

abbrev pub green_at : Bool → List ℕ → ℕ → ℕ
green_at is_xrgb bytes at =
    if is_xrgb then get_or bytes (at + 1) 0 else widen6 (raw_at bytes at / 32 % 64)

abbrev pub blue_at : Bool → List ℕ → ℕ → ℕ
blue_at is_xrgb bytes at = if is_xrgb then get_or bytes at 0 else widen5 (raw_at bytes at % 32)

-- A level under the gamma table of its channel.
abbrev pub level : Option Lut → ℕ → ℕ → ℕ
level none channel v = v
level (some lut) channel v = lut channel v

abbrev pub IsByteTable : Option Lut → Type 0
IsByteTable gamma = (channel v : ℕ) → v < 256 → level gamma channel v < 256

abbrev pub AreBytes : List ℕ → Type 0
AreBytes bytes = (i : ℕ) → get_or bytes i 0 < 256

-- The three fields of a 16-bit pixel of the panel hold the upper bits of a colour; a panel in BGR order
-- has blue in the upper field and red in the lower one.
pub record HasFields (bgr : Bool) (red green blue px : ℕ) : Type 0 where
  pub upper : px / 2048 ≡ (if bgr then blue else red) / 8
  pub middle : px / 32 % 64 ≡ green / 4
  pub lower : px % 32 ≡ (if bgr then red else blue) / 8

-- The pixel `px` of the panel has the colour of the framebuffer's pixel at `at`, under the gamma.
abbrev pub HasColour : Bool → Option Lut → Bool → List ℕ → ℕ → ℕ → Type 0
HasColour bgr gamma is_xrgb bytes at px =
    HasFields bgr (level gamma 0 (red_at is_xrgb bytes at))
      (level gamma 1 (green_at is_xrgb bytes at)) (level gamma 2 (blue_at is_xrgb bytes at)) px

pack_pixel-HasFields :
    (bgr : Bool) (r g b : ℕ)
    → r < 256
    → g < 256
    → b < 256
    → HasFields bgr r g b (pack_pixel bgr (r, g, b))
unfolding pack_pixel
pack_pixel-HasFields true r g b hr hg hb = record {
  upper = omega arith;
  middle = omega arith;
  lower = omega arith;
}
pack_pixel-HasFields false r g b hr hg hb = record {
  upper = omega arith;
  middle = omega arith;
  lower = omega arith;
}

apply_gamma-level :
    (gamma : Option Lut) (r g b : ℕ)
    → apply_gamma gamma (r, g, b) ≡ (level gamma 0 r, level gamma 1 g, level gamma 2 b)
unfolding apply_gamma
apply_gamma-level none r g b = refl
apply_gamma-level (some lut) r g b = refl

read_pixel-colour :
    (c : Blit) (at : ℕ)
    → AreBytes c.bytes
    → (read_pixel c at ≡ (
      red_at c.is_xrgb c.bytes at,
      green_at c.is_xrgb c.bytes at,
      blue_at c.is_xrgb c.bytes at,
    ))
      × (red_at c.is_xrgb c.bytes at < 256)
      × (green_at c.is_xrgb c.bytes at < 256)
      × (blue_at c.is_xrgb c.bytes at < 256)
unfolding read_pixel
read_pixel-colour c at bytes = ground (arith, bytes at, bytes (at + 1), bytes (at + 2))

pub convert_pixel-HasColour :
    (c : Blit) (at : ℕ)
    → AreBytes c.bytes
    → IsByteTable c.gamma
    → HasColour c.bgr c.gamma c.is_xrgb c.bytes at (convert_pixel c at)
unfolding convert_pixel
convert_pixel-HasColour c at bytes table =
    let (read, red, green, blue) = read_pixel-colour c at bytes in
    rw (read, apply_gamma-level c.gamma _ _ _)
      (pack_pixel-HasFields c.bgr _ _ _ (table 0 _ red) (table 1 _ green) (table 2 _ blue))
