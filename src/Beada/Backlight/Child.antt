-- ===== src/Beada/Backlight/Child.antt =====
-- bl/beada-backlight-bl.c, beada-backlight-drv.c, beada-backlight-pm.c and beada-backlight-sysfs.c: the
-- backlight child. The parent's command is that of Beada/Link.
use packages.Base.{
  ℕ, zero, suc, ◌+◌, ◌-◌, ◌*◌, ◌/◌, ◌%◌, ◌^◌, Option, none, some, List, [], ◌∷◌, not, ◌||◌, ◌==◌,
  ltb, leb, length, min, if◌then◌else◌,
}
use packages.Base.Int.{ℤ, pos_part}
use packages.Base.Errno.{Ret, einval, enodev}
use packages.Beada.Link.Device.{Link, Host, Bulk}
use packages.Beada.Link.Status.{set_brightness}

-- `struct beada_backlight`.
pub record BeadaBacklight : Type 0 where
  pub max_value : ℕ
  pub gamma_x100 : ℕ
  pub stored_value : ℕ

-- The loop over the integer part of the exponent.
unfoldable pub power_loop : ℕ → ℕ → ℕ → ℕ
power_loop base zero result = result
power_loop base (suc whole) result = power_loop base whole (result * base / 255)

-- The step for the fraction. `next` is at most `result`, and the division of C is toward 0.
unfoldable pub interpolate : ℕ → ℕ → ℕ → ℕ
interpolate result next frac = result - (result - next) * frac / 100

-- `beada_pow_lut`; without a fraction the step is 0.
unfoldable pub pow_lut : ℕ → ℕ → ℕ
pow_lut raw g_x100 =
    let result = power_loop raw (g_x100 / 100) 255 in
    if g_x100 == 100 || (raw == 0 || raw == 255)
    then raw
    else min (interpolate result (result * raw / 255) (g_x100 % 100)) 255

-- The level that `beada_bl_send` sends for a raw value.
unfoldable pub bl_level : BeadaBacklight → ℕ → ℕ
bl_level mb raw =
    if mb.gamma_x100 == 100
    then raw
    else pow_lut (min (raw * 255 / mb.max_value) 255) mb.gamma_x100 * mb.max_value / 255

-- `beada_bl_send`.
unfoldable pub bl_send : Host → Ret → Bulk → ℕ → BeadaBacklight → Link → Ret × Link
bl_send host pm out raw mb l = set_brightness host pm out (bl_level mb raw % 256) l

-- The child with its parent.
abbrev pub Child : Type 0
Child = BeadaBacklight × Link

-- `beada_bl_update_status`; `requested` is what `backlight_get_brightness` returns.
unfoldable pub bl_update_status : Host → Ret → Bulk → ℤ → Child → Ret × Child
bl_update_status host pm out requested (mb, l) =
    let stored = record mb { stored_value = min (pos_part requested) mb.max_value } in
    let (ret, sent) = bl_send host pm out stored.stored_value stored l in
    (if ret == enodev then enodev else 0, (stored, sent))

-- `beada_bl_resume_handler`.
unfoldable pub bl_resume_handler : Host → Ret → Bulk → BeadaBacklight → Link → Link
bl_resume_handler host pm out mb l = (bl_send host pm out mb.stored_value mb l).1

-- `gamma_store`, for the answer of the parser. The result is an errno, or 0 where the source returns the
-- count.
unfoldable pub gamma_store : Host → Ret → Bulk → Ret × ℕ → Child → Ret × Child
gamma_store host pm out (parsed, new_gamma) (mb, l) =
    let curved = record mb { gamma_x100 = new_gamma } in
    if not (parsed == 0)
    then (parsed, (mb, l))
    else if ltb new_gamma 50 || ltb 400 new_gamma
    then (einval, (mb, l))
    else (0, (curved, (bl_send host pm out mb.stored_value curved l).1))

-- `beada_backlight_probe` up to the registrations, which succeed: the child, if the panel has a backlight.
unfoldable pub probe : ℕ → ℕ → Option BeadaBacklight
probe max_brightness current_brightness =
    if max_brightness == 0
    then none
    else some (record {
      max_value = max_brightness;
      stored_value = min current_brightness max_brightness;
      gamma_x100 = 100;
    })

-- The loop that takes newlines and spaces off the end, on the text turned round.
unfoldable pub strip : List ℕ → List ℕ
strip [] = []
strip (c ∷ cs) = let rest = strip cs in if c == 10 || c == 32 then rest else c ∷ cs

unfoldable pub turn_round : List ℕ → List ℕ → List ℕ
turn_round [] out = out
turn_round (c ∷ cs) out = turn_round cs (c ∷ out)

-- The text before the first point, and the text behind it, if there is a point.
unfoldable pub split_point : List ℕ → List ℕ × Option (List ℕ)
split_point [] = ([], none)
split_point (c ∷ cs) =
    let (before, behind) = split_point cs in if c == 46 then ([], some cs) else (c ∷ before, behind)

-- The two parts of the number; `parse` is kstrtou32 at base 10.
unfoldable pub parse_parts : (List ℕ → Ret × ℕ) → List ℕ × Option (List ℕ) → Ret × ℕ
parse_parts parse (w, none) = let (ret, whole) = parse w in (ret, whole * 100 % 2 ^ 32)
parse_parts parse (w, some f) =
    let (w_ret, whole) = parse w in
    let (f_ret, frac) = parse f in
    let padded = if length f == 1 then frac * 10 else frac in
    if leb 8 (length w) || (length f == 0 || ltb 2 (length f))
    then (einval, 0)
    else if not (w_ret == 0)
    then (w_ret, 0)
    else if not (f_ret == 0)
    then (f_ret, 0)
    else (0, (whole * 100 + padded) % 2 ^ 32)

-- `parse_gamma_x100` of a text without its 0; the number counts only where the result is 0.
unfoldable pub parse_gamma_x100 : (List ℕ → Ret × ℕ) → List ℕ → Ret × ℕ
parse_gamma_x100 parse buf =
    if length buf == 0 || leb 16 (length buf)
    then (einval, 0)
    else parse_parts parse (split_point (turn_round (strip (turn_round buf [])) []))
