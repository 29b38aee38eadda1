-- ===== src/Mpro/Drm/Copy.antt =====
-- drm/mpro_drm_color.c and mpro_drm.h: from a framebuffer to the shadow buffer. The shadow buffer and
-- the framebuffer are bytes, low byte first in a pixel. A read or a write outside a buffer is a fault.
use packages.Base.{
  ℕ, zero, suc, ◌+◌, ◌-◌, ◌*◌, ◌/◌, ◌%◌, Bool, List, [], ◌∷◌, ◌++◌, not, ◌&&◌, ◌||◌, ◌==◌, ltb,
  get_or, take, drop, length, if◌then◌else◌,
}
use packages.Base.Errno.{Ret, einval, enomem}
use packages.Mpro.Rotation.Mode.{rotate_0}
use packages.Mpro.Rotation.Buffer.{rotate_buffer}
use packages.Mpro.Drm.Pixel.{Lut, Color, brightness_max, convert_xrgb8888, copy_rgb565}

pub data Format : Type 0 where
  rgb565 : Format
  xrgb8888 : Format
  other_format : Format

-- `struct drm_framebuffer` and the bytes at its mapped address; `mapped` is false for a null map.
pub record Framebuffer : Type 0 where
  pub format : Format
  pub width : ℕ
  pub height : ℕ
  pub pitch : ℕ
  pub mapped : Bool
  pub bytes : List ℕ

-- `fb->format->cpp[0]`, where the format is supported.
abbrev pub cpp : Format → ℕ
cpp rgb565 = 2
cpp xrgb8888 = 4
cpp other_format = 4

-- `drm_rect` past the clamps of its caller, which leave nothing below 0.
pub record Clip : Type 0 where
  pub x1 : ℕ
  pub y1 : ℕ
  pub x2 : ℕ
  pub y2 : ℕ

-- `mpro_drm__clip_valid`.
abbrev pub clip_valid : Clip → Bool
clip_valid c = ltb c.x1 c.x2 && ltb c.y1 c.y2

-- A pixel of the framebuffer at a byte offset.
abbrev pub pixel_at : Format → List ℕ → ℕ → ℕ
pixel_at xrgb8888 bytes at =
    get_or bytes at 0
    + 256 * get_or bytes (at + 1) 0
    + 65536 * get_or bytes (at + 2) 0
    + 16777216 * get_or bytes (at + 3) 0
pixel_at rgb565 bytes at = get_or bytes at 0 + 256 * get_or bytes (at + 1) 0
pixel_at other_format bytes at = 0

-- The conversion of one pixel. `plain` is what `drm_fb_xrgb8888_to_rgb565` of the DRM library makes of
-- a pixel; it is used without a transform.
unfoldable pub convert : (ℕ → ℕ) → Format → Lut → Bool → ℕ → ℕ
convert plain rgb565 lut transform px = copy_rgb565 lut transform px
convert plain xrgb8888 lut transform px =
    if transform then convert_xrgb8888 lut transform px else plain px
convert plain other_format lut transform px = 0

-- What a copy reads: the framebuffer, the tables, and the conversion of the DRM library.
pub record Source : Type 0 where
  pub fb : Framebuffer
  pub lut : Lut
  pub transform : Bool
  pub plain : ℕ → ℕ

-- `n` converted pixels from a byte offset of the framebuffer on.
unfoldable pub pixel_row : Source → ℕ → ℕ → List ℕ
pixel_row s at zero = []
pixel_row s at (suc n) =
    convert s.plain s.fb.format s.lut s.transform (pixel_at s.fb.format s.fb.bytes at)
    ∷ pixel_row s (at + cpp s.fb.format) n

-- `n` lines of `w` pixels, for the buffer that is rotated.
unfoldable pub pixel_rows : Source → ℕ → ℕ → ℕ → List ℕ
pixel_rows s at w zero = []
pixel_rows s at w (suc n) = pixel_row s at w ++ pixel_rows s (at + s.fb.pitch) w n

-- Pixels as bytes, and bytes as `n` pixels.
unfoldable pub to_bytes : List ℕ → List ℕ
to_bytes [] = []
to_bytes (p ∷ ps) = p % 256 ∷ p / 256 % 256 ∷ to_bytes ps

unfoldable pub to_pixels : ℕ → List ℕ → List ℕ
to_pixels zero bytes = []
to_pixels (suc n) bytes = (get_or bytes 0 0 + 256 * get_or bytes 1 0) ∷ to_pixels n (drop 2 bytes)

-- The bytes are written from an offset on.
unfoldable pub write_at : ℕ → List ℕ → List ℕ → List ℕ
write_at at new old = take at old ++ new ++ drop (at + length new) old

-- `n` lines of `w` pixels are written to the shadow buffer, `pitch` bytes apart.
unfoldable pub write_rows : Source → ℕ → ℕ → ℕ → ℕ → ℕ → List ℕ → List ℕ
write_rows s at w pitch dst zero shadow = shadow
write_rows s at w pitch dst (suc n) shadow =
    write_rows s (at + s.fb.pitch) w pitch (dst + pitch) n
      (write_at dst (to_bytes (pixel_row s at w)) shadow)

-- The last byte that `n` lines of `row_bytes` bytes touch, `pitch` apart, plus one.
abbrev pub rows_end : ℕ → ℕ → ℕ → ℕ → ℕ
rows_end at pitch row_bytes n = at + (n - 1) * pitch + row_bytes

-- The result of a copy: an errno, the new shadow buffer, or an access outside a buffer.
pub data Copied : Type 0 where
  failed : Ret → Copied
  copied : List ℕ → Copied
  fault : Copied

-- The fields of `struct mpro_drm` that a copy reads beside the colours.
pub record Target : Type 0 where
  pub width : ℕ
  pub height : ℕ
  pub effective : ℕ
  pub shadow : List ℕ

-- The copy past its tests, without a rotation: straight into the shadow buffer.
unfoldable pub copy_straight : Source → Target → ℕ → ℕ → ℕ → ℕ → Copied
copy_straight s t at dst w h =
    if ltb (length t.shadow) (rows_end dst (t.width * 2) (w * 2) h)
    then fault
    else copied (write_rows s at w (t.width * 2) dst h t.shadow)

-- With a rotation: by way of a buffer of `w * h` pixels, whose lines are written with the pitch of the
-- shadow buffer.
unfoldable pub copy_rotated : Bool → Source → Target → ℕ → ℕ → ℕ → ℕ → Copied
copy_rotated temp_ok s t at dst w h =
    let pixels = pixel_rows s at w h in
    let old = to_pixels (w * h) (drop dst t.shadow) in
    if not temp_ok
    then failed enomem
    else if ltb (w * h * 2) (rows_end 0 (t.width * 2) (w * 2) h)
    then fault
    else if ltb (length t.shadow) (dst + w * h * 2)
    then fault
    else copied (write_at dst (to_bytes (rotate_buffer w h t.effective pixels old)) t.shadow)

-- The switch on the format.
abbrev pub supported : Format → Bool
supported rgb565 = Bool.true
supported xrgb8888 = Bool.true
supported other_format = Bool.false

-- `mpro_drm__copy_frame`; `temp_ok` is what the allocation of the temporary buffer answers.
unfoldable pub copy_frame : Bool → Source → Target → Clip → Copied
copy_frame temp_ok s t c =
    let w = c.x2 - c.x1 in
    let h = c.y2 - c.y1 in
    let at = c.y1 * s.fb.pitch + c.x1 * cpp s.fb.format in
    let dst = c.y1 * (t.width * 2) + c.x1 * 2 in
    let rotates = not (t.effective == rotate_0) in
    if ltb t.width c.x2 || ltb t.height c.y2
    then failed einval
    else if s.fb.pitch == 0 || not s.fb.mapped
    then failed einval
    else if not (clip_valid c)
    then failed einval
    else if not (supported s.fb.format)
    then failed (if rotates && not temp_ok then enomem else einval)
    else if rotates && not temp_ok
    then failed enomem
    else if ltb (length s.fb.bytes) (rows_end at s.fb.pitch (w * cpp s.fb.format) h)
    then fault
    else if rotates
    then copy_rotated temp_ok s t at dst w h
    else copy_straight s t at dst w h

-- `transform_needed`, and the tables that are copied under the lock.
unfoldable pub source_of : (ℕ → ℕ) → Color → Framebuffer → Source
source_of plain c fb = record {
  fb = fb;
  lut = c.lut_combined;
  transform = c.gamma_valid || ltb c.brightness brightness_max;
  plain = plain;
}
