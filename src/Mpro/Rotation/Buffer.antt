-- ===== src/Mpro/Rotation/Buffer.antt =====
-- mpro_drm_color.c: `mpro_drm__rotate_buffer`, the loop over the pixels of the source.
use packages.Base.{
  ℕ, zero, suc, ◌+◌, ◌-◌, ◌*◌, Bool, List, ◌&&◌, ◌==◌, not, get_or, set, take, drop, ◌++◌,
  if◌then◌else◌,
}
use packages.Mpro.Rotation.Mode.{
  rotate_0, rotate_90, rotate_180, rotate_270, angle_bits, has_reflect_x, has_reflect_y,
}

-- A pixel's place: column, row, and the width of the buffer that it is in.
pub record Spot : Type 0 where
  pub col : ℕ
  pub line : ℕ
  pub stride : ℕ

abbrev pub index : Spot → ℕ
index s = s.line * s.stride + s.col

-- `sx`, `sy`: where the pixel that goes to (x, y) before the rotation is read.
unfoldable pub source_spot : ℕ → ℕ → ℕ → ℕ → ℕ → Spot
source_spot width height rotation x y = record {
  col = if has_reflect_x rotation then width - 1 - x else x;
  line = if has_reflect_y rotation then height - 1 - y else y;
  stride = width;
}

-- `dx`, `dy`, `dw`: the switch on the angle.
unfoldable pub dest_spot : ℕ → ℕ → ℕ → ℕ → ℕ → Spot
dest_spot width height rotation x y =
    let rot = angle_bits rotation in
    if rot == rotate_90
    then record { col = height - 1 - y; line = x; stride = height }
    else if rot == rotate_180
    then record { col = width - 1 - x; line = height - 1 - y; stride = width }
    else if rot == rotate_270
    then record { col = y; line = width - 1 - x; stride = height }
    else record { col = x; line = y; stride = width }

-- The test of the fast path: no rotation and no reflection.
unfoldable pub is_straight : ℕ → Bool
is_straight r = angle_bits r == rotate_0 && (not (has_reflect_x r) && not (has_reflect_y r))

module _ (width height rotation : ℕ) (src : List ℕ) where
  -- One turn of the inner loop.
  unfoldable pub rotate_pixel : ℕ → ℕ → List ℕ → List ℕ
  rotate_pixel x y dst =
      set dst (index (dest_spot width height rotation x y))
        (get_or src (index (source_spot width height rotation x y)) 0)

  -- The inner loop, `n` columns from `x` on.
  unfoldable pub rotate_row : ℕ → ℕ → ℕ → List ℕ → List ℕ
  unfolding rotate_pixel
  rotate_row zero x y dst = dst
  rotate_row (suc n) x y dst = rotate_row n (x + 1) y (rotate_pixel x y dst)

  -- The outer loop, `n` rows from `y` on.
  unfoldable pub rotate_rows : ℕ → ℕ → List ℕ → List ℕ
  unfolding rotate_row
  rotate_rows zero y dst = dst
  rotate_rows (suc n) y dst = rotate_rows n (y + 1) (rotate_row width 0 y dst)

  -- `mpro_drm__rotate_buffer`; `dst` is the buffer before the call. Without rotation and reflection
  -- the pixels are copied at once.
  unfoldable pub rotate_buffer : List ℕ → List ℕ
  unfolding rotate_rows
  rotate_buffer dst =
      if is_straight rotation
      then take (width * height) src ++ drop (width * height) dst
      else rotate_rows height 0 dst
