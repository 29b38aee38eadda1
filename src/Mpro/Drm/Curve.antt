-- ===== src/Mpro/Drm/Curve.antt =====
-- mpro_color.c: the shape of the power curve.
use packages.Base.{ℕ, zero, suc, ◌+◌, ◌-◌, ◌*◌, ◌/◌, ◌%◌, ◌^◌, ◌≤◌, ◌<◌, ◌≡◌, arith}
use native.Mathlib.Nat.{
  pow-le-pow_left, pow-le-pow_right, pow-suc, le-div_iff_mul-le, div-le_of_le-mul, mod-eq_of_lt,
  mul-le-mul_right, div-mul-le_self, le_trans,
}
use packages.Mpro.Drm.Gamma.{int_pow, power_curve, blend, pow_lut}

-- Up to the eighth power nothing wraps in u64.
pub int_pow_exact : (x n : ℕ) → x ≤ 255 → n ≤ 8 → int_pow x n ≡ x ^ n
int_pow_exact x n hx hn =
    mod-eq_of_lt (omega (arith, pow-le-pow_left hx n, pow-le-pow_right {n = 255} (omega arith) hn))

-- An integer power of a level divided by the next lower power of 255 is a level.
power_curve_bound : (x n : ℕ) → x ≤ 255 → n ≤ 8 → power_curve x n ≤ 255
unfolding power_curve
power_curve_bound x zero hx hn = omega arith
power_curve_bound x (suc n) hx hn =
    rw (int_pow_exact x (suc n) hx hn, int_pow_exact 255 n (omega arith) (omega arith))
      (div-le_of_le-mul (255 ^ n) (omega (arith, pow-le-pow_left hx (suc n), pow-suc 255 n)))

div_mono : (a b k : ℕ) → a ≤ b → a / k ≤ b / k
div_mono a b zero h = omega arith
div_mono a b (suc k) h =
    (le-div_iff_mul-le (omega arith)).1 (le_trans (div-mul-le_self a (suc k)) h)

power_curve_mono : (x y n : ℕ) → x ≤ y → y ≤ 255 → n ≤ 8 → power_curve x n ≤ power_curve y n
unfolding power_curve
power_curve_mono x y zero h hy hn = omega arith
power_curve_mono x y (suc n) h hy hn =
    rw (int_pow_exact x (suc n) (omega arith) hn, int_pow_exact y (suc n) hy hn)
      (div_mono (x ^ suc n) (y ^ suc n) (int_pow 255 n) (pow-le-pow_left h (suc n)))

mix_bound : (p q f : ℕ) → p ≤ 255 → q ≤ 255 → f < 100 → (p * (100 - f) + q * f) / 100 ≤ 255
mix_bound p q f hp hq hf = omega (arith, mul-le-mul_right (100 - f) hp, mul-le-mul_right f hq)

mix_mono :
    (p q p' q' f : ℕ)
    → p ≤ p'
    → q ≤ q'
    → (p * (100 - f) + q * f) / 100 ≤ (p' * (100 - f) + q' * f) / 100
mix_mono p q p' q' f hp hq = omega (arith, mul-le-mul_right (100 - f) hp, mul-le-mul_right f hq)

-- For gammas below 8.00 the curve stays at most 255 before the clamp, so the clamp never acts.
blend_bound : (x g : ℕ) → x ≤ 255 → g < 800 → blend x g ≤ 255
unfolding blend
blend_bound x g hx hg =
    mix_bound (power_curve x (g / 100)) (power_curve x (suc (g / 100))) (g % 100)
      (power_curve_bound x (g / 100) hx (omega arith))
      (power_curve_bound x (suc (g / 100)) hx (omega arith)) (omega arith)

blend_mono : (x y g : ℕ) → x ≤ y → y ≤ 255 → g < 800 → blend x g ≤ blend y g
unfolding blend
blend_mono x y g h hy hg =
    mix_mono (power_curve x (g / 100)) (power_curve x (suc (g / 100))) (power_curve y (g / 100))
      (power_curve y (suc (g / 100))) (g % 100) (power_curve_mono x y (g / 100) h hy (omega arith))
      (power_curve_mono x y (suc (g / 100)) h hy (omega arith))

-- For gammas below 8.00 the look-up table is monotone and keeps black and white: a brighter input
-- never becomes darker than a darker one, 0 stays 0, and 255 and above give 255.
pub pow_lut_mono :
    (x y g : ℕ)
    → x ≤ y
    → g < 800
    → (pow_lut x g ≤ pow_lut y g)
      × (pow_lut y g ≤ 255)
      × (pow_lut 0 g ≡ 0)
      × (pow_lut (255 + x) g ≡ 255)
unfolding pow_lut
pow_lut_mono x y g h hg = ground (arith, blend_mono x y g h, blend_bound x g, blend_bound y g)
