-- ===== src/Mpro/Backlight/Child.antt =====
-- backlight/mpro_backlight.c: the state and the callbacks of the child.
use packages.Base.{
  ℕ, ◌%◌, Bool, true, false, List, [], ◌∷◌, not, ◌||◌, ◌==◌, ltb, min, if◌then◌else◌,
}
use packages.Base.Int.{ℤ, pos, pos_part, ltb_ℤ}
use packages.Base.Errno.{Ret, einval}
use packages.Mpro.Drm.Gamma.{pow_lut}

-- `struct mpro_backlight`; `sent` is the commands handed to the parent, the latest first, which the
-- code does not read.
pub record MproBacklight : Type 0 where
  pub screen_on : Bool
  pub stored_value : ℕ
  pub gamma_x100 : ℕ
  pub sent : List (List ℕ)

-- `mpro_bl__curve`; `raw` and the result are bytes.
unfoldable pub curve : ℕ → ℕ → ℕ
curve gamma raw = if gamma == 100 || (raw == 0 || raw == 255) then raw else pow_lut raw gamma % 256

-- The command of `mpro_bl__send_value`.
abbrev pub backlight_command : ℕ → List ℕ
backlight_command level = 0x00 ∷ 0x51 ∷ 0x02 ∷ 0x00 ∷ 0x00 ∷ 0x00 ∷ level ∷ 0x00 ∷ []

-- `mpro_bl__send_value`; `ret` is what `mpro_send_command` returns.
unfoldable pub send_value : Ret → ℕ → MproBacklight → Ret × MproBacklight
send_value ret raw mb =
    (ret, record mb { sent = backlight_command (curve mb.gamma_x100 raw) ∷ mb.sent })

-- `clamp(requested, 0, MPRO_BL_MAX)`.
abbrev pub clamp_level : ℤ → ℕ
clamp_level requested = min (pos_part requested) 255

-- The value is sent while the screen is on.
abbrev pub send_if_on : Ret → MproBacklight → Ret × MproBacklight
send_if_on ret mb = if mb.screen_on then send_value ret mb.stored_value mb else (0, mb)

-- `mpro_bl__update`; `requested` is what `backlight_get_brightness` returns.
unfoldable pub update : Ret → ℤ → MproBacklight → Ret × MproBacklight
update ret requested mb = send_if_on ret (record mb { stored_value = clamp_level requested })

-- `mpro_bl__screen_off` and `mpro_bl__screen_on`, which drop the result.
unfoldable pub bl_screen_off : Ret → MproBacklight → MproBacklight
bl_screen_off ret mb = (send_value ret 0 (record mb { screen_on = false })).1

unfoldable pub bl_screen_on : Ret → MproBacklight → MproBacklight
bl_screen_on ret mb = (send_value ret mb.stored_value (record mb { screen_on = true })).1

-- `gamma_store`; `parsed` and `new_gamma` are the answer of `mpro_parse_gamma_x100`. The result is an
-- error, or 0 where the source returns the count.
unfoldable pub gamma_store : Ret → Ret → ℕ → MproBacklight → Ret × MproBacklight
gamma_store ret parsed new_gamma mb =
    if not (parsed == 0)
    then (parsed, mb)
    else if ltb new_gamma 50 || ltb 400 new_gamma
    then (einval, mb)
    else (0, (send_if_on ret (record mb { gamma_x100 = new_gamma })).1)

-- The module parameters as `mpro_bl__probe` uses them.
unfoldable pub initial_brightness : ℤ → ℕ
initial_brightness wanted =
    if ltb_ℤ wanted (pos 0) || ltb_ℤ (pos 255) wanted
    then clamp_level wanted
    else pos_part wanted % 256

unfoldable pub initial_gamma : ℤ → ℕ
initial_gamma wanted =
    if ltb_ℤ wanted (pos 50) || ltb_ℤ (pos 400) wanted then 100 else pos_part wanted

-- The state after `mpro_bl__probe`, whose registrations succeed; it sends the first value.
unfoldable pub probe : Ret → ℤ → ℤ → MproBacklight
probe ret brightness gamma =
    (send_value ret (initial_brightness brightness) (record {
      screen_on = true;
      stored_value = initial_brightness brightness;
      gamma_x100 = initial_gamma gamma;
      sent = [];
    })).1
