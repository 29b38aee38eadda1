-- ===== src/Usbfb/Backlight.antt =====
-- usbfb.c: the backlight, with CONFIG_BACKLIGHT_CLASS_DEVICE.
use packages.Base.{ℕ, ◌%◌, ◌≤◌, ◌<◌, ◌≡◌, ◌⊎◌, true, List, [], ◌∷◌, ◌==◌, ltb, if◌then◌else◌, arith}
use packages.Base.Int.{ℤ, neg_part}
use packages.Base.Errno.{Ret, einval}
use packages.Usbfb.Screen.{Screen, failed, put, start_command}

-- `bd->props` and `uinfo->power` beside the rest of `struct usbfb_info`.
pub record Backlight : Type 0 where
  pub screen : Screen
  pub brightness : ℕ
  pub max_brightness : ℕ
  pub props_power : ℕ
  pub power : ℕ

-- The maximum for a blanking mode: MAX_BL_LEVEL is 255, and a fifth of it 51. FB_BLANK_POWERDOWN is 4.
unfoldable pub max_for : ℕ → ℕ
max_for mode =
    if mode == 0
    then 255
    else if mode == 1
    then 153
    else if mode == 2
    then 102
    else if mode == 3
    then 51
    else 0

-- The first part of `usb_fb_bl_update_status`: a change of power.
unfoldable pub change_power : Backlight → Backlight
change_power b =
    if b.props_power == b.power
    then b
    else let mode = if ltb 4 b.props_power then 4 else b.props_power in
      record b { props_power = mode; max_brightness = max_for mode; power = mode }

-- `level` when its range is tested.
unfoldable pub wanted_level : Backlight → ℕ
wanted_level b = if b.props_power == b.power then b.brightness else (change_power b).max_brightness

-- The command for a level.
abbrev pub level_command : ℕ → List ℕ
level_command level = 0 ∷ 0x51 ∷ 0x02 ∷ 0 ∷ 0 ∷ 0 ∷ level % 256 ∷ 0 ∷ []

-- The end of `usb_fb_bl_update_status`: `ret` is what `usb_control_msg` returns.
unfoldable pub send_level : ℤ → ℕ → Backlight → Ret × Backlight
send_level ret level b =
    let told =
      start_command
        (record b.screen { cmd = put (level_command level) b.screen.cmd; cmd_len = 8 }) in
    if failed ret
    then (neg_part ret, record b { screen = told })
    else (0, record b { screen = told; brightness = level })

-- `usb_fb_bl_update_status`; MIN_BL_LEVEL is 0.
unfoldable pub bl_update_status : ℤ → Backlight → Ret × Backlight
bl_update_status ret b =
    let level = wanted_level b in
    let changed = change_power b in
    if ltb changed.max_brightness level
    then (einval, changed)
    else send_level ret (if ltb 255 level then 255 else level) changed

-- `usb_fb_bl_get_brightness`.
unfoldable pub bl_get_brightness : Backlight → ℕ
bl_get_brightness b = if ltb b.max_brightness b.brightness then b.max_brightness else b.brightness

-- An update in which the screen answers gives the level that was asked for, or the maximum of the new
-- mode if the power changed; the level stored is the one reported, and is at most the maximum. An
-- update fails only if the level is above the maximum or the transfer fails, and then the stored
-- brightness stays.
pub bl_update_status-level :
    (ret : ℤ) (b : Backlight)
    → b.max_brightness ≤ 255
    → let r = bl_update_status ret b in
      ((r.0 ≡ 0)
        × (r.1.brightness ≡ wanted_level b)
        × (r.1.brightness ≤ r.1.max_brightness)
        × (bl_get_brightness r.1 ≡ r.1.brightness)
        × (r.1.power ≡ r.1.props_power))
      ⊎ (((failed ret ≡ true) ⊎ (b.max_brightness < b.brightness))
          × (r.1.brightness ≡ b.brightness))
unfolding bl_update_status send_level change_power wanted_level max_for bl_get_brightness
bl_update_status-level ret b h = ground arith
