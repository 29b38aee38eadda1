-- ===== src/Usbfb/Order.antt =====
-- usbfb.c: which messages reach the screen, and in which order.
use packages.Base.{
  take-length, take-append, ℕ, ◌+◌, ◌%◌, ◌^◌, ◌≤◌, ◌<◌, ◌≡◌, refl, ap, ◌∙◌, Bool, true, false, List,
  [], ◌∷◌, not, ◌&&◌, ◌||◌, ◌==◌, ltb, length, take, drop, if◌then◌else◌, arith,
}
use packages.Base.Int.{pos, leb_ℤ}
use packages.Usbfb.Geometry.{frame_command}
use packages.Usbfb.Screen.{
  Message, frame_head, pixels, command, Screen, Answers, failed, update_frame, start_command,
  end_command, send_command, or_pause, refresh_turn, refresh_turns, command_store,
}

abbrev pub is_running : Screen → Bool
is_running s = leb_ℤ (pos 0) s.pause

-- A turn of a thread that is stopped.
stopped_turn :
    (a : Answers) (s : Screen)
    → is_running s ≡ false
    → refresh_turn a s ≡ record s { frame_count = (s.frame_count + 1) % 2 ^ 32 }
unfolding refresh_turn
stopped_turn a s h = rw h refl

-- A thread that is stopped sends nothing and stays stopped, while it counts its turns.
pub refresh_turns-stopped :
    (later : List Answers) (s : Screen)
    → is_running s ≡ false
    → s.frame_count < 2 ^ 32
    → ((refresh_turns later s).sent ≡ s.sent)
      × (is_running (refresh_turns later s) ≡ false)
      × ((refresh_turns later s).frame_count ≡ (s.frame_count + length later) % 2 ^ 32)
unfolding refresh_turns
refresh_turns-stopped [] s h small = (refl, h, omega arith)
refresh_turns-stopped (a ∷ later) s h small =
    let next = record s { frame_count = (s.frame_count + 1) % 2 ^ 32 } in
    let rest = refresh_turns-stopped later next h (omega arith) in
    rw (refresh_turns, stopped_turn a s h) (rest.0, rest.1, omega (arith, rest.2))

-- One of the transfers of a turn fails; the last one is made when a command waits.
abbrev pub has_failed : Answers → Screen → Bool
has_failed a s = failed a.head || (failed a.bulk || (not (s.cmd_len == 0) && failed a.control))

turn_stops :
    (a : Answers) (s : Screen)
    → is_running s ≡ true
    → has_failed a s ≡ true
    → is_running (refresh_turn a s) ≡ false
unfolding refresh_turn or_pause update_frame send_command start_command end_command
turn_stops a s run bad = ground arith

turn_count : (a : Answers) (s : Screen) → (refresh_turn a s).frame_count < 2 ^ 32
unfolding refresh_turn
turn_count a s = omega arith

-- After a turn in which a transfer fails, whichever it is, the thread sends nothing more, however
-- often it turns.
pub refresh_turns-failed :
    (a : Answers) (later : List Answers) (s : Screen)
    → is_running s ≡ true
    → has_failed a s ≡ true
    → (refresh_turns later (refresh_turn a s)).sent ≡ (refresh_turn a s).sent
refresh_turns-failed a later s run bad =
    (refresh_turns-stopped later (refresh_turn a s) (turn_stops a s run bad) (turn_count a s)).0

-- No transfer fails.
pub record IsAnswering (a : Answers) : Type 0 where
  pub head : failed a.head ≡ false
  pub bulk : failed a.bulk ≡ false
  pub control : failed a.control ≡ false

-- A frame with its announcement, on top of what was sent.
abbrev pub with_frame : Screen → List Message → List Message
with_frame s ms =
    pixels (take s.screen_size s.screen_buffer) ∷ frame_head (frame_command s.screen_size) ∷ ms

-- What a turn does without an error.
abbrev after_turn : Screen → Screen
after_turn s = record s {
  cmd_len = 0;
  frame_count = (s.frame_count + 1) % 2 ^ 32;
  sent =
      if s.cmd_len == 0
      then with_frame s s.sent
      else command (take s.cmd_len s.cmd) ∷ with_frame s s.sent;
}

turn_sends :
    (a : Answers) (s : Screen)
    → IsAnswering a
    → is_running s ≡ true
    → ((refresh_turn a s).sent ≡ (after_turn s).sent)
      × ((refresh_turn a s).cmd_len ≡ 0)
      × ((refresh_turn a s).pause ≡ s.pause)
      × ((refresh_turn a s).screen_size ≡ s.screen_size)
      × ((refresh_turn a s).screen_buffer ≡ s.screen_buffer)
unfolding refresh_turn or_pause update_frame send_command start_command end_command
turn_sends a s ok run = ground (arith, ok.head, ok.bulk, ok.control)

-- What a store leaves, for a buffer that fits.
stored_command :
    (buf : List ℕ) (s : Screen)
    → length buf ≤ 64
    → ((command_store buf s).1.cmd_len ≡ length buf)
      × (take (length buf) (command_store buf s).1.cmd ≡ buf)
unfolding command_store
stored_command buf s short =
    let used : (if ltb (length buf) 64 then length buf else 64) ≡ length buf = ground arith in
    rw (used, take-length buf) (refl, take-append buf (drop (length buf) s.cmd))

pub command_turn :
    (a : Answers) (buf : List ℕ) (s : Screen)
    → IsAnswering a
    → is_running s ≡ true
    → 0 < length buf
    → s.cmd_len ≡ length buf
    → take (length buf) s.cmd ≡ buf
    → (refresh_turn a s).sent ≡ command buf ∷ with_frame s s.sent
command_turn a buf s ok run long len kept =
    let waits : (s.cmd_len == 0) ≡ false = ground arith in
    (turn_sends a s ok run).0
    ∙ rw waits (ap (λ b. command b ∷ with_frame s s.sent) (rw (← len) at kept))

quiet_turn :
    (a : Answers) (s t : Screen)
    → IsAnswering a
    → is_running s ≡ true
    → (t.cmd_len ≡ 0)
      × (t.pause ≡ s.pause)
      × (t.screen_size ≡ s.screen_size)
      × (t.screen_buffer ≡ s.screen_buffer)
    → (refresh_turn a t).sent ≡ with_frame s t.sent
quiet_turn a s t ok run (empty, pause, size, buffer) =
    (turn_sends a t ok (rw pause run)).0 ∙ rw (empty, size, buffer) refl

-- A command of 1 to 64 bytes that is stored between two turns of the running thread is sent once, after
-- the frame of the next turn, and the turn after that sends its frame only, if no transfer fails.
pub command_store-turns :
    (a c : Answers) (buf : List ℕ) (s : Screen)
    → IsAnswering a
    → IsAnswering c
    → is_running s ≡ true
    → 0 < length buf
    → length buf ≤ 64
    → (refresh_turn c (refresh_turn a (command_store buf s).1)).sent
      ≡ with_frame s (command buf ∷ with_frame s s.sent)
unfolding command_store
command_store-turns a c buf s oka okc run long short =
    let stored = (command_store buf s).1 in
    let kept = stored_command buf s short in
    let after = turn_sends a stored oka run in
    quiet_turn c s (refresh_turn a stored) okc run (after.1, after.2, after.3, after.4)
    ∙ ap (with_frame s) (command_turn a buf stored oka run long kept.0 kept.1)

-- A command that is stored while the thread sends another one is lost: the thread marks the buffer as
-- empty after its transfer, and its next turn sends a frame only.
pub command_store-lost :
    (a : Answers) (buf : List ℕ) (s : Screen)
    → IsAnswering a
    → is_running s ≡ true
    → (refresh_turn a (end_command (command_store buf (start_command s)).1)).sent
      ≡ with_frame s (command (take s.cmd_len s.cmd) ∷ s.sent)
unfolding start_command end_command command_store
command_store-lost a buf s ok run =
    (turn_sends a (end_command (command_store buf (start_command s)).1) ok run).0
