-- ===== src/Mpro/Rotation/Picture.antt =====
-- drm/mpro_drm_color.c: a rotated picture against the plain description of a rotation: mirror the
-- columns, mirror the lines, then turn by the angle.
use packages.Base.{
  ℕ, ◌+◌, ◌*◌, ◌<◌, ◌≤◌, ◌≡◌, ◌∙◌, ap, sym, refl, Bool, List, arith, length, get_or,
}
use mathlib.Core.Path.{ap₂}
use packages.Mpro.Rotation.Mode.{mode}
use packages.Mpro.Rotation.Buffer.{index, source_spot, dest_spot, rotate_buffer}
use packages.Mpro.Rotation.Loop.{rotate_buffer-places}
use packages.Mpro.Rotation.Compose.{
  Angle, upright, quarter, half, three_quarters, bit, wide, mirror, shown, angle-mode,
  reflect_x-mode, reflect_y-mode,
}

-- The place of a column and a line in a buffer of lines of `n` pixels.
abbrev pub offset : ℕ → ℕ × ℕ → ℕ
offset n (c, l) = l * n + c

mirror_twice : (b : Bool) (n i : ℕ) → i < n → mirror b n (mirror b n i) ≡ i
mirror_twice b n i h = ground arith

mirror_lt : (b : Bool) (n i : ℕ) → i < n → mirror b n i < n
mirror_lt b n i h = ground arith

module _ (w h x y : ℕ) (hx : x < w) (hy : y < h) where
  dest-mirror :
      (a : Angle) (rx ry : Bool)
      → index (dest_spot w h (mode (bit a) rx ry) (mirror rx w x) (mirror ry h y))
        ≡ offset (wide a w h) (shown a rx ry w h (x, y))
  unfolding dest_spot
  dest-mirror upright rx ry = rw (angle-mode upright rx ry) refl
  dest-mirror quarter rx ry = rw (angle-mode quarter rx ry) refl
  dest-mirror half rx ry = rw (angle-mode half rx ry) refl
  dest-mirror three_quarters rx ry = rw (angle-mode three_quarters rx ry) refl

  source-mirror :
      (a : Angle) (rx ry : Bool)
      → index (source_spot w h (mode (bit a) rx ry) (mirror rx w x) (mirror ry h y)) ≡ y * w + x
  unfolding source_spot
  source-mirror a rx ry =
      rw (reflect_x-mode a rx ry, reflect_y-mode a rx ry)
        (ap₂ (λ l c. l * w + c) (mirror_twice ry h y hy) (mirror_twice rx w x hx))

  -- For every angle and every choice of reflections, and buffers that are large enough: the pixel
  -- (x, y) of the picture is found, in the rotated buffer, at the place that mirroring and turning
  -- gives it, in lines that are as wide as the turned picture.
  pub rotate_buffer-shown :
      (a : Angle) (rx ry : Bool) (src dst : List ℕ)
      → w * h ≤ length src
      → w * h ≤ length dst
      → get_or
          (rotate_buffer w h (mode (bit a) rx ry) src dst)
          (offset (wide a w h) (shown a rx ry w h (x, y)))
          0
        ≡ get_or src (y * w + x) 0
  rotate_buffer-shown a rx ry src dst fs fd =
      let r = mode (bit a) rx ry in
      ap (λ i. get_or (rotate_buffer w h r src dst) i 0) (sym (dest-mirror a rx ry))
      ∙ rotate_buffer-places w h r (mirror rx w x) (mirror ry h y) src dst fs fd
          (mirror_lt rx w x hx) (mirror_lt ry h y hy)
      ∙ ap (λ i. get_or src i 0) (source-mirror a rx ry)
