-- ===== src/Mpro/Touch/Screen.antt =====
-- touchscreen/mpro_touchscreen.c against drm/mpro_drm_color.c: a touch is reported at the pixel that
-- is shown under the finger.
use packages.Base.{ℕ, ◌-◌, ◌<◌, ◌≡◌, Bool, true, false, arith, if◌then◌else◌}
use packages.Mpro.Rotation.Mode.{rotate_90, rotate_180, rotate_270, mode}
use packages.Mpro.Rotation.Buffer.{Spot, source_spot, dest_spot}
use packages.Mpro.Touch.Coord.{Point, rotate}

-- The point of the device where a pixel is shown, and the plane's point that it shows.
abbrev pub at : Spot → Point
at s = record { x = s.col; y = s.line }

module _ (w h x y : ℕ) (wide : w < 65536) (high : h < 65536) (inx : x < w) (iny : y < h) where
  -- At the angles 0 and 180, with any reflections, a touch on the device point where a pixel of a
  -- `w` by `h` plane is shown is reported at that pixel of the plane.
  pub rotate-upright :
      (rx ry flipped : Bool)
      → let r = mode (if flipped then rotate_180 else 1) rx ry in
        rotate r w h (at (dest_spot w h r x y)) ≡ at (source_spot w h r x y)
  unfolding rotate dest_spot source_spot
  rotate-upright rx ry flipped = ground arith

  -- At 90 and 270 the device is `h` wide and `w` high. The touch is reported at the pixel that is
  -- shown there when both axes are reflected, or none.
  pub rotate_turned :
      (both flipped : Bool)
      → let r = mode (if flipped then rotate_270 else rotate_90) both both in
        rotate r h w (at (dest_spot w h r x y)) ≡ at (source_spot w h r x y)
  unfolding rotate dest_spot source_spot
  rotate_turned both flipped = ground arith

  -- At 90 and 270 with exactly one reflection the touch is reported at the opposite pixel: mirrored in
  -- both axes of the plane.
  pub rotate-mirrored :
      (rx flipped : Bool)
      → let r = mode (if flipped then rotate_270 else rotate_90) rx (if rx then false else true) in
        let shown = source_spot w h r x y in
        rotate r h w (at (dest_spot w h r x y))
        ≡ record { x = w - 1 - shown.col; y = h - 1 - shown.line }
  unfolding rotate dest_spot source_spot
  rotate-mirrored rx flipped = ground arith
