-- ===== src/Mpro/Touch/Coord.antt =====
-- touchscreen/mpro_touchscreen.c: device coordinates to the coordinates of the DRM plane, in u16.
use packages.Base.{ℕ, ◌+◌, ◌-◌, ◌%◌, ◌/◌, ◌*◌, ◌==◌, if◌then◌else◌}
use packages.Mpro.Model.{ModelInfo}
use packages.Mpro.Rotation.Mode.{rotate_90, rotate_180, rotate_270, has_reflect_x, has_reflect_y}

-- `a - 1 - b` in `u16`, for `a` and `b` below 65536.
abbrev pub flip16 : ℕ → ℕ → ℕ
flip16 a b = (a + 2 * 65536 - 1 - b) % 65536

pub record Point : Type 0 where
  pub x : ℕ
  pub y : ℕ

-- `mpro_ts__rotate`, at the rotation `r` and the device size `dw` by `dh`.
unfoldable pub rotate : ℕ → ℕ → ℕ → Point → Point
rotate r dw dh p =
    let nx = if has_reflect_x r then flip16 dw p.x else p.x in
    let ny = if has_reflect_y r then flip16 dh p.y else p.y in
    let angle = r % 16 + r / 64 * 64 in
    if angle == rotate_90
    then record { x = ny; y = flip16 dw nx }
    else if angle == rotate_180
    then record { x = flip16 dw nx; y = flip16 dh ny }
    else if angle == rotate_270
    then record { x = flip16 dh ny; y = nx }
    else record { x = nx; y = ny }

-- The compensation for the panel's orientation, in `mpro_ts__handle_packet`: swap, then invert.
unfoldable pub calibrate : ModelInfo → Point → Point
calibrate m p =
    let q : Point = if m.touch_swap_xy then record { x = p.y; y = p.x } else p in
    record {
      x = if m.touch_invert_x then flip16 (m.width % 65536) q.x else q.x;
      y = if m.touch_invert_y then flip16 (m.height % 65536) q.y else q.y;
    }
