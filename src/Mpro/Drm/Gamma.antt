-- ===== src/Mpro/Drm/Gamma.antt =====
-- mpro_color.c, mpro.h: the power curve and the parser of gamma values.
use packages.Base.{ℕ, zero, suc, ◌+◌, ◌-◌, ◌*◌, ◌/◌, ◌%◌, ◌^◌, ◌==◌, ltb, leb, if◌then◌else◌}

-- `int_pow` in u64.
abbrev pub int_pow : ℕ → ℕ → ℕ
int_pow base exp = base ^ exp % 2 ^ 64

-- The curve with the integer exponent `n` at `x`: x^n / 255^(n-1), and 255 at exponent 0.
unfoldable pub power_curve : ℕ → ℕ → ℕ
power_curve x zero = 255
power_curve x (suc n) = int_pow x (suc n) / int_pow 255 n

-- `mpro_pow_lut` between the early returns and the clamp.
unfoldable pub blend : ℕ → ℕ → ℕ
blend x g_x100 =
    let n = g_x100 / 100 in
    let f = g_x100 % 100 in (power_curve x n * (100 - f) + power_curve x (suc n) * f) / 100

-- `mpro_pow_lut`.
unfoldable pub pow_lut : ℕ → ℕ → ℕ
pow_lut x g_x100 =
    if x == 0
    then 0
    else if leb 255 x
    then 255
    else if g_x100 == 100
    then x
    else if ltb 255 (blend x g_x100)
    then 255
    else blend x g_x100
