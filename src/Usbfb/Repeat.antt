-- ===== src/Usbfb/Repeat.antt =====
-- usbfb.c: a brightness command and the refresh thread.
use packages.Base.{
  ℕ, ◌≤◌, ◌≡◌, refl, ap, ◌∙◌, true, false, ◌∷◌, ◌==◌, ltb, drop, take-append, if-cases, arith,
}
use packages.Base.Int.{ℤ}
use packages.Base.Errno.{Ret}
use packages.Usbfb.Screen.{command, Screen, Answers, failed, put, start_command, refresh_turn}
use packages.Usbfb.Order.{is_running, IsAnswering, with_frame, command_turn}
use packages.Usbfb.Backlight.{
  Backlight, max_for, change_power, wanted_level, level_command, send_level, bl_update_status,
}

wanted_level_bound :
    (b : Backlight)
    → b.max_brightness ≤ 255
    → b.brightness ≤ b.max_brightness
    → (wanted_level b ≤ (change_power b).max_brightness) × (wanted_level b ≤ 255)
unfolding wanted_level change_power max_for
wanted_level_bound b top small = ground arith

change_power_screen : (b : Backlight) → (change_power b).screen ≡ b.screen
unfolding change_power
change_power_screen b =
    if-cases (λ (c : Backlight). c.screen ≡ b.screen) (b.props_power == b.power) (λ e. refl)
      (λ ne. refl)

-- The screen after the command for a level.
abbrev level_screen : ℕ → Screen → Screen
level_screen level s = record s {
  cmd = put (level_command level) s.cmd;
  cmd_len = 8;
  sent = command (level_command level) ∷ s.sent;
}

send_level_screen :
    (ret : ℤ) (level : ℕ) (b : Backlight)
    → (send_level ret level b).1.screen ≡ level_screen level b.screen
unfolding send_level start_command
send_level_screen ret level b =
    if-cases (λ (r : Ret × Backlight). r.1.screen ≡ level_screen level b.screen) (failed ret)
      (λ bad. refl) (λ ok. refl)

update_screen :
    (ret : ℤ) (b : Backlight)
    → b.max_brightness ≤ 255
    → b.brightness ≤ b.max_brightness
    → (bl_update_status ret b).1.screen ≡ level_screen (wanted_level b) b.screen
unfolding bl_update_status
update_screen ret b top small =
    let bound = wanted_level_bound b top small in
    let fits : ltb (change_power b).max_brightness (wanted_level b) ≡ false =
      ground (arith, bound) in
    let byte : ltb 255 (wanted_level b) ≡ false = ground (arith, bound) in
    rw (fits, byte)
      (send_level_screen ret (wanted_level b) (change_power b)
        ∙ ap (level_screen (wanted_level b)) (change_power_screen b))

-- A brightness command goes out twice, whatever waited before: the update sends it and leaves it in
-- the buffer, so that the next turn of the thread sends it again after its frame. A command of the
-- user that waited in the buffer is not sent.
pub bl_update_status-repeated :
    (ret : ℤ) (a : Answers) (b : Backlight)
    → b.max_brightness ≤ 255
    → b.brightness ≤ b.max_brightness
    → IsAnswering a
    → is_running b.screen ≡ true
    → let order = command (level_command (wanted_level b)) in
      (refresh_turn a (bl_update_status ret b).1.screen).sent
      ≡ order ∷ with_frame b.screen (order ∷ b.screen.sent)
bl_update_status-repeated ret a b top small ok run =
    let c = level_command (wanted_level b) in
    let told = level_screen (wanted_level b) b.screen in
    ap (λ s. (refresh_turn a s).sent) (update_screen ret b top small)
    ∙ command_turn a c told ok run (omega arith) refl (take-append c (drop 8 b.screen.cmd))
