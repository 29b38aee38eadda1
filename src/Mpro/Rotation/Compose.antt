-- ===== src/Mpro/Rotation/Compose.antt =====
-- mpro_drm.h: `mpro_drm__compose_rotation` against the composition of what two rotations do to the
-- pixels of a picture.
use packages.Base.{
  ℕ, ◌-◌, not, ◌∙◌, ap, sym, ◌<◌, ◌≡◌, refl, Bool, true, false, arith, if◌then◌else◌,
}
use mathlib.Core.Bool.{xor}
use packages.Mpro.Rotation.Mode.{
  mode, angle_bits, has_reflect_x, has_reflect_y, table_entry, compose_rotation,
}
use packages.Mpro.Rotation.Buffer.{source_spot, dest_spot}

pub data Angle : Type 0 where
  upright : Angle
  quarter : Angle
  half : Angle
  three_quarters : Angle

-- The bit of an angle.
abbrev pub bit : Angle → ℕ
bit upright = 1
bit quarter = 2
bit half = 4
bit three_quarters = 8

abbrev pub turn : Angle → Angle
turn upright = quarter
turn quarter = half
turn half = three_quarters
turn three_quarters = upright

-- One angle after the other.
abbrev pub add_angle : Angle → Angle → Angle
add_angle upright b = b
add_angle quarter b = turn b
add_angle half b = turn (turn b)
add_angle three_quarters b = turn (turn (turn b))

-- The three parts of a valid rotation value.
pub angle-mode : (a : Angle) (rx ry : Bool) → angle_bits (mode (bit a) rx ry) ≡ bit a
angle-mode upright rx ry = ground arith
angle-mode quarter rx ry = ground arith
angle-mode half rx ry = ground arith
angle-mode three_quarters rx ry = ground arith

pub reflect_x-mode : (a : Angle) (rx ry : Bool) → has_reflect_x (mode (bit a) rx ry) ≡ rx
reflect_x-mode upright rx ry = ground arith
reflect_x-mode quarter rx ry = ground arith
reflect_x-mode half rx ry = ground arith
reflect_x-mode three_quarters rx ry = ground arith

pub reflect_y-mode : (a : Angle) (rx ry : Bool) → has_reflect_y (mode (bit a) rx ry) ≡ ry
reflect_y-mode upright rx ry = ground arith
reflect_y-mode quarter rx ry = ground arith
reflect_y-mode half rx ry = ground arith
reflect_y-mode three_quarters rx ry = ground arith

table_lem : (a b : Angle) → table_entry (bit a) (bit b) ≡ bit (add_angle a b)
unfolding table_entry
table_lem upright upright = refl
table_lem upright quarter = refl
table_lem upright half = refl
table_lem upright three_quarters = refl
table_lem quarter upright = refl
table_lem quarter quarter = refl
table_lem quarter half = refl
table_lem quarter three_quarters = refl
table_lem half upright = refl
table_lem half quarter = refl
table_lem half half = refl
table_lem half three_quarters = refl
table_lem three_quarters upright = refl
table_lem three_quarters quarter = refl
table_lem three_quarters half = refl
table_lem three_quarters three_quarters = refl

-- The composition of two valid rotations is a valid rotation: its angle is the sum of the angles and
-- each reflection is there when exactly one of the two has it.
pub compose_rotation-mode :
    (a b : Angle) (ax ay bx by : Bool)
    → compose_rotation (mode (bit a) ax ay) (mode (bit b) bx by)
      ≡ mode (bit (add_angle a b)) (xor ax bx) (xor ay by)
unfolding compose_rotation
compose_rotation-mode a b ax ay bx by = rw (
  angle-mode a ax ay,
  angle-mode b bx by,
  reflect_x-mode a ax ay,
  reflect_x-mode b bx by,
  reflect_y-mode a ax ay,
  reflect_y-mode b bx by,
  table_lem a b,
)

-- Where a rotation shows the pixel (x, y) of a `w` by `h` picture, as a column and a line.
abbrev pub place : ℕ → ℕ → ℕ → ℕ × ℕ → ℕ × ℕ
place w h r (x, y) =
    let s = source_spot w h r x y in let t = dest_spot w h r s.col s.line in (t.col, t.line)

-- The size of the picture after a rotation.
abbrev pub wide : Angle → ℕ → ℕ → ℕ
wide upright w h = w
wide quarter w h = h
wide half w h = w
wide three_quarters w h = h

-- The same by cases.
abbrev pub mirror : Bool → ℕ → ℕ → ℕ
mirror flip n i = if flip then n - 1 - i else i

abbrev pub turned : Angle → ℕ → ℕ → ℕ × ℕ → ℕ × ℕ
turned upright w h (x, y) = (x, y)
turned quarter w h (x, y) = (h - 1 - y, x)
turned half w h (x, y) = (w - 1 - x, h - 1 - y)
turned three_quarters w h (x, y) = (y, w - 1 - x)

abbrev pub shown : Angle → Bool → Bool → ℕ → ℕ → ℕ × ℕ → ℕ × ℕ
shown a rx ry w h (x, y) = turned a w h (mirror rx w x, mirror ry h y)

pub place_lem :
    (a : Angle) (rx ry : Bool) (w h x y : ℕ)
    → place w h (mode (bit a) rx ry) (x, y) ≡ shown a rx ry w h (x, y)
unfolding dest_spot source_spot
place_lem upright rx ry w h x y =
    rw (angle-mode upright rx ry, reflect_x-mode upright rx ry, reflect_y-mode upright rx ry) refl
place_lem quarter rx ry w h x y =
    rw (angle-mode quarter rx ry, reflect_x-mode quarter rx ry, reflect_y-mode quarter rx ry) refl
place_lem half rx ry w h x y =
    rw (angle-mode half rx ry, reflect_x-mode half rx ry, reflect_y-mode half rx ry) refl
place_lem three_quarters rx ry w h x y =
    rw
      (
        angle-mode three_quarters rx ry,
        reflect_x-mode three_quarters rx ry,
        reflect_y-mode three_quarters rx ry,
      )
      refl

-- The opposite of a point in a picture of `m` by `n` pixels: mirrored in both axes.
abbrev pub opposite : ℕ × ℕ → ℕ × ℕ → ℕ × ℕ
opposite (c, l) (m, n) = (m - 1 - c, n - 1 - l)

module _ (w h x y : ℕ) (hx : x < w) (hy : y < h) where
  shown-shown :
      (a b : Angle) (both bx by : Bool)
      → shown (add_angle a b) (xor both bx) (xor both by) w h (x, y)
        ≡ shown a both both (wide b w h) (wide b h w) (shown b bx by w h (x, y))
  unfolding xor
  shown-shown upright upright both bx by = ground arith
  shown-shown upright quarter both bx by = ground arith
  shown-shown upright half both bx by = ground arith
  shown-shown upright three_quarters both bx by = ground arith
  shown-shown quarter upright both bx by = ground arith
  shown-shown quarter quarter both bx by = ground arith
  shown-shown quarter half both bx by = ground arith
  shown-shown quarter three_quarters both bx by = ground arith
  shown-shown half upright both bx by = ground arith
  shown-shown half quarter both bx by = ground arith
  shown-shown half half both bx by = ground arith
  shown-shown half three_quarters both bx by = ground arith
  shown-shown three_quarters upright both bx by = ground arith
  shown-shown three_quarters quarter both bx by = ground arith
  shown-shown three_quarters half both bx by = ground arith
  shown-shown three_quarters three_quarters both bx by = ground arith

  -- A base rotation without reflections, or with both, composes with any rotation as the pictures
  -- do: showing the picture by the composed rotation is showing it by `extra` and then by `base`.
  pub compose_rotation-place :
      (a b : Angle) (both bx by : Bool)
      → let base = mode (bit a) both both in
        let extra = mode (bit b) bx by in
        place w h (compose_rotation base extra) (x, y)
        ≡ place (wide b w h) (wide b h w) base (place w h extra (x, y))
  compose_rotation-place a b both bx by =
      ap (λ r. place w h r (x, y)) (compose_rotation-mode a b both both bx by)
      ∙ place_lem (add_angle a b) (xor both bx) (xor both by) w h x y
      ∙ shown-shown a b both bx by
      ∙ ap (shown a both both (wide b w h) (wide b h w)) (sym (place_lem b bx by w h x y))
      ∙ sym (
          place_lem a both both (wide b w h) (wide b h w) (place w h (mode (bit b) bx by) (x, y)).0
            (place w h (mode (bit b) bx by) (x, y)).1)

  shown-opposite :
      (a : Angle) (rx flipped bx by : Bool)
      → let b = if flipped then three_quarters else quarter in
        shown (add_angle a b) (xor rx bx) (xor (not rx) by) w h (x, y)
        ≡ opposite (shown a rx (not rx) h w (shown b bx by w h (x, y))) (wide a h w, wide a w h)
  unfolding xor
  shown-opposite upright rx false bx by = ground arith
  shown-opposite upright rx true bx by = ground arith
  shown-opposite quarter rx false bx by = ground arith
  shown-opposite quarter rx true bx by = ground arith
  shown-opposite half rx false bx by = ground arith
  shown-opposite half rx true bx by = ground arith
  shown-opposite three_quarters rx false bx by = ground arith
  shown-opposite three_quarters rx true bx by = ground arith

  -- A base rotation with exactly one reflection, the native rotation of almost every model, does not
  -- compose so with a rotation by 90 or 270 degrees: the composed rotation shows every pixel at the
  -- opposite point of the panel, mirrored in both axes.
  pub compose_rotation-opposite :
      (a : Angle) (rx flipped bx by : Bool)
      → let base = mode (bit a) rx (not rx) in
        let extra = mode (bit (if flipped then three_quarters else quarter)) bx by in
        place w h (compose_rotation base extra) (x, y)
        ≡ opposite (place h w base (place w h extra (x, y))) (wide a h w, wide a w h)
  compose_rotation-opposite a rx flipped bx by =
      let b = if flipped then three_quarters else quarter in
      ap (λ r. place w h r (x, y)) (compose_rotation-mode a b rx (not rx) bx by)
      ∙ place_lem (add_angle a b) (xor rx bx) (xor (not rx) by) w h x y
      ∙ shown-opposite a rx flipped bx by
      ∙ ap (λ p. opposite (shown a rx (not rx) h w p) (wide a h w, wide a w h))
          (sym (place_lem b bx by w h x y))
      ∙ ap (λ p. opposite p (wide a h w, wide a w h))
          (sym (
            place_lem a rx (not rx) h w (place w h (mode (bit b) bx by) (x, y)).0
              (place w h (mode (bit b) bx by) (x, y)).1))
