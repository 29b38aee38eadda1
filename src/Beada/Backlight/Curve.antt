-- ===== src/Beada/Backlight/Curve.antt =====
-- bl/beada-backlight-bl.c: the gamma curve and the level that is sent.
use packages.Base.{ℕ, zero, suc, ◌+◌, ◌-◌, ◌*◌, ◌/◌, ◌%◌, ◌≤◌, ◌<◌, ◌≡◌, min, arith}
use native.Mathlib.Nat.{
  mul-div_cancel_left, zero-div, le-div_iff_mul-le, mul-le-mul_right, mul-le-mul_left,
  div-mul-le_self, le_trans,
}
use packages.Beada.Backlight.Child.{BeadaBacklight, power_loop, interpolate, pow_lut, bl_level}

div_mono : (a b k : ℕ) → a ≤ b → a / k ≤ b / k
div_mono a b zero h = omega arith
div_mono a b (suc k) h =
    (le-div_iff_mul-le (omega arith)).1 (le_trans (div-mul-le_self a (suc k)) h)

mul_mono : (a b c d : ℕ) → a ≤ b → c ≤ d → a * c ≤ b * d
mul_mono a b c d h k = le_trans (mul-le-mul_right c h) (mul-le-mul_left b k)

-- A factor below 255 makes a level no greater.
scale_le : (r x : ℕ) → x ≤ 255 → r * x / 255 ≤ r
scale_le r x hx = omega (arith, mul-le-mul_left r hx)

scale_mono : (r s x y : ℕ) → r ≤ s → x ≤ y → r * x / 255 ≤ s * y / 255
scale_mono r s x y h k = div_mono (r * x) (s * y) 255 (mul_mono r s x y h k)

power_mono : (x y n r s : ℕ) → x ≤ y → r ≤ s → power_loop x n r ≤ power_loop y n s
unfolding power_loop
power_mono x y zero r s h k = k
power_mono x y (suc n) r s h k =
    power_mono x y n (r * x / 255) (s * y / 255) h (scale_mono r s x y k h)

power_le : (x n r : ℕ) → x ≤ 255 → power_loop x n r ≤ r
unfolding power_loop
power_le x zero r hx = omega arith
power_le x (suc n) r hx = le_trans (power_le x n (r * x / 255) hx) (scale_le r x hx)

distribute : (a b f : ℕ) → (a + b) * f ≡ a * f + b * f
distribute a b f = grind arith

interpolate_mono :
    (r n r' n' f : ℕ)
    → r ≤ r'
    → n ≤ n'
    → n ≤ r
    → n' ≤ r'
    → f < 100
    → interpolate r n f ≤ interpolate r' n' f
unfolding interpolate
interpolate_mono r n r' n' f hr hn low low' hf =
    let wider : (r' - n') * f ≤ ((r - n) + (r' - r)) * f = mul-le-mul_right f (omega arith) in
    let part : (r' - r) * f ≤ (r' - r) * 100 = mul-le-mul_left (r' - r) (omega arith) in
    omega (arith, wider, part, distribute (r - n) (r' - r) f)

interpolate_le : (r n f : ℕ) → interpolate r n f ≤ r
unfolding interpolate
interpolate_le r n f = omega arith

curve_le :
    (x g : ℕ)
    → x ≤ 255
    → interpolate (power_loop x (g / 100) 255) (power_loop x (g / 100) 255 * x / 255) (g % 100)
      ≤ 255
curve_le x g hx =
    le_trans (interpolate_le (power_loop x (g / 100) 255) _ (g % 100)) (power_le x (g / 100) 255 hx)

curve_mono :
    (x y g : ℕ)
    → x ≤ y
    → y ≤ 255
    → interpolate (power_loop x (g / 100) 255) (power_loop x (g / 100) 255 * x / 255) (g % 100)
      ≤ interpolate (power_loop y (g / 100) 255) (power_loop y (g / 100) 255 * y / 255) (g % 100)
curve_mono x y g h hy =
    let powers = power_mono x y (g / 100) 255 255 h (omega arith) in
    interpolate_mono (power_loop x (g / 100) 255) _ (power_loop y (g / 100) 255) _ (g % 100) powers
      (scale_mono _ _ x y powers h) (scale_le _ x (omega arith)) (scale_le _ y hy) (omega arith)

-- The curve of a level.
curve_level : (x y g : ℕ) → x ≤ y → y ≤ 255 → (pow_lut x g ≤ pow_lut y g) × (pow_lut y g ≤ 255)
unfolding pow_lut
curve_level x y g h hy = ground (arith, curve_le x g, curve_le y g, curve_mono x y g)

curve_ends : (g : ℕ) → (pow_lut 0 g ≡ 0) × (pow_lut 255 g ≡ 255)
unfolding pow_lut
curve_ends g = ground arith

-- The level scaled to 255.
scaled_mono : (m x y : ℕ) → x ≤ y → min (x * 255 / m) 255 ≤ min (y * 255 / m) 255
scaled_mono m x y h = ground (arith, div_mono (x * 255) (y * 255) m (mul-le-mul_right 255 h))

div_self : (m : ℕ) → 0 < m → m * 255 / m ≡ 255
div_self m h = mul-div_cancel_left 255 h

div_zero : (m : ℕ) → 0 < m → 0 * 255 / m ≡ 0
div_zero m h = zero-div m

-- The level under a curve.
curved_mono :
    (m g x y : ℕ)
    → 0 < m
    → x ≤ y
    → (pow_lut (min (x * 255 / m) 255) g * m / 255 ≤ pow_lut (min (y * 255 / m) 255) g * m / 255)
      × (pow_lut (min (y * 255 / m) 255) g * m / 255 ≤ m)
curved_mono m g x y some h =
    let curve = curve_level _ _ g (scaled_mono m x y h) (ground arith) in
    (div_mono _ _ 255 (mul-le-mul_right m curve.0), omega (arith, mul-le-mul_right m curve.1))

curved_zero : (m g : ℕ) → 0 < m → pow_lut (min (0 * 255 / m) 255) g * m / 255 ≡ 0
curved_zero m g some = rw (div_zero m some, (curve_ends g).0) (omega arith)

curved_max : (m g : ℕ) → 0 < m → pow_lut (min (m * 255 / m) 255) g * m / 255 ≡ m
curved_max m g some = rw (div_self m some, (curve_ends g).1) (omega arith)

-- For any gamma and a panel with a backlight: a greater value up to the maximum is never sent as a lower
-- level, no level is above the maximum, and 0 and the maximum are sent as they are.
pub bl_level_mono :
    (mb : BeadaBacklight) (x y : ℕ)
    → 0 < mb.max_value
    → x ≤ y
    → y ≤ mb.max_value
    → (bl_level mb x ≤ bl_level mb y)
      × (bl_level mb y ≤ mb.max_value)
      × (bl_level mb 0 ≡ 0)
      × (bl_level mb mb.max_value ≡ mb.max_value)
unfolding bl_level
bl_level_mono mb x y some h hy =
    let m = mb.max_value in
    let g = mb.gamma_x100 in
    ground (arith, curved_mono m g x y some h, curved_zero m g some, curved_max m g some)
