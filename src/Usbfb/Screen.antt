-- ===== src/Usbfb/Screen.antt =====
-- usbfb.c: the refresh thread, the sysfs stores and the touch interrupt.
use packages.Base.{
  ℕ, ◌+◌, ◌*◌, ◌/◌, ◌%◌, ◌^◌, Bool, List, [], ◌∷◌, ◌++◌, not, ◌==◌, ltb, length, take, drop, map,
  if◌then◌else◌,
}
use packages.Base.Int.{ℤ, pos, negsuc, ltb_ℤ, leb_ℤ}
use packages.Usbfb.Geometry.{frame_command}

-- What the screen received: a frame command, the pixels, a command of the driver or of the user.
pub data Message : Type 0 where
  frame_head : List ℕ → Message
  pixels : List ℕ → Message
  command : List ℕ → Message

-- The fields of `struct usbfb_info` and `struct usbfb_par` that the thread and the stores use; `cmd`
-- has 64 bytes, `screen_buffer` the bytes that are sent. `sent` is what was handed to the USB core,
-- the latest first; the code does not read it.
pub record Screen : Type 0 where
  pub cmd : List ℕ
  pub cmd_len : ℕ
  pub pause : ℤ
  pub frame_count : ℕ
  pub screen_size : ℕ
  pub screen_buffer : List ℕ
  pub sent : List Message

-- USBFB_PAUSE_INFINIT.
abbrev pub pause_infinit : ℤ
pause_infinit = negsuc 0

abbrev pub log : Message → Screen → Screen
log m s = record s { sent = m ∷ s.sent }

-- What the USB core answers to the transfers of one turn of the thread.
pub record Answers : Type 0 where
  pub head : ℤ
  pub bulk : ℤ
  pub control : ℤ

abbrev pub failed : ℤ → Bool
failed ret = ltb_ℤ ret (pos 0)

-- `usbfb_update_frame`.
unfoldable pub update_frame : Answers → Screen → ℤ × Screen
update_frame a s =
    let announced = log (frame_head (frame_command s.screen_size)) s in
    if failed a.head
    then (a.head, announced)
    else let shown = log (pixels (take s.screen_size s.screen_buffer)) announced in
      if failed a.bulk then (a.bulk, shown) else (pos 0, shown)

-- `usbfb_send_command` up to the transfer, and after it.
unfoldable pub start_command : Screen → Screen
start_command s = log (command (take s.cmd_len s.cmd)) s

unfoldable pub end_command : Screen → Screen
end_command s = record s { cmd_len = 0 }

-- `usbfb_send_command`; `ret` is what `usb_control_msg` returns.
unfoldable pub send_command : ℤ → Screen → ℤ × Screen
send_command ret s = if s.cmd_len == 0 then (pos 0, s) else (ret, end_command (start_command s))

-- The bytes at the front of `cmd`.
abbrev pub put : List ℕ → List ℕ → List ℕ
put bytes cmd = bytes ++ drop (length bytes) cmd

-- `usbfb_refresh_thread` before its loop: a black picture, and the command that ends the sleep.
unfoldable pub refresh_start : ℤ → Screen → Screen
refresh_start ret s =
    (send_command ret (record s {
      screen_buffer = map (λ b. 0) s.screen_buffer;
      cmd = put (0x00 ∷ 0x29 ∷ 0x00 ∷ 0x00 ∷ []) s.cmd;
      cmd_len = 4;
    })).1

-- After a call that returned `ret`, the thread stops sending at an error.
unfoldable pub or_pause : ℤ × Screen → Screen
or_pause (ret, s) = if failed ret then record s { pause = pause_infinit } else s

-- One turn of the loop of `usbfb_refresh_thread`, as one step: a store that falls inside a turn, which the
-- code allows for want of a lock, is none of the steps here.
unfoldable pub refresh_turn : Answers → Screen → Screen
refresh_turn a s =
    let worked =
      if leb_ℤ (pos 0) s.pause
      then or_pause (send_command a.control (or_pause (update_frame a s)))
      else s in
    record worked { frame_count = (worked.frame_count + 1) % 2 ^ 32 }

unfoldable pub refresh_turns : List Answers → Screen → Screen
refresh_turns [] s = s
refresh_turns (a ∷ later) s = refresh_turns later (refresh_turn a s)

-- `usbfb_command_store`: what is returned, and the state.
unfoldable pub command_store : List ℕ → Screen → ℕ × Screen
command_store buf s =
    let used = if ltb (length buf) 64 then length buf else 64 in
    (used, record s { cmd = put (take used buf) s.cmd; cmd_len = used })

-- `usbfb_pause_store` of `count` bytes; `ret` and `val` are what `kstrtol` returns and stores.
unfoldable pub pause_store : ℕ → ℤ → ℤ → Screen → ℕ × Screen
pause_store count ret val s = if failed ret then (0, s) else (count, record s { pause = val })

-- `usbfb_blank`; FB_BLANK_UNBLANK is 0.
unfoldable pub blank : ℕ → Screen → Screen
blank mode s =
    if not (mode == 0) then record s { screen_buffer = map (λ b. 0) s.screen_buffer } else s

-- What `usbfb_touch_irq` reports: the key, the column and the line.
pub record Touch : Type 0 where
  pub key : ℕ
  pub x : ℕ
  pub y : ℕ

-- `usbfb_touch_irq` on the bytes of the first point: the flag is in the two high bits of the first
-- byte, four bits of the coordinates in the low ones.
unfoldable pub read_touch : ℕ → ℕ → ℕ → ℕ → Touch
read_touch xh xl yh yl = record {
  key = if not (xh / 64 % 4 == 1) then 1 else 0;
  x = xh % 16 * 256 + xl;
  y = yh % 16 * 256 + yl;
}
