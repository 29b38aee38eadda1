-- ===== src/Usbfb/Tests.antt =====
-- Examples of the usbfb driver: each theorem with hypotheses, applied where they hold.
use packages.Base.{◌≡◌, refl, true, false, [], ◌∷◌, replicate, arith}
use packages.Base.Int.{pos}
use packages.Usbfb.Screen.{Screen, Answers, command, command_store, refresh_turn}
use packages.Usbfb.Order.{IsAnswering, with_frame, command_store-turns}
use packages.Usbfb.Setup.{Setup, probe, probe-success}

-- A small screen with a command that waits.
abbrev screen : Screen
screen = record {
  cmd = 1 ∷ 2 ∷ replicate 62 0;
  cmd_len = 2;
  pause = pos 10;
  frame_count = 7;
  screen_size = 4;
  screen_buffer = 9 ∷ 9 ∷ 9 ∷ 9 ∷ [];
  sent = [];
}

abbrev good : Answers
good = record { head = pos 6; bulk = pos 0; control = pos 2 }

good-IsAnswering : IsAnswering good
good-IsAnswering = record { head = refl; bulk = refl; control = refl }

command_store-turns_example :
    (refresh_turn good (refresh_turn good (command_store (5 ∷ 6 ∷ 7 ∷ []) screen).1)).sent
    ≡ with_frame screen (command (5 ∷ 6 ∷ 7 ∷ []) ∷ with_frame screen [])
command_store-turns_example =
    command_store-turns good good (5 ∷ 6 ∷ 7 ∷ []) screen good-IsAnswering good-IsAnswering refl
      (omega arith) (omega arith)

-- A probe for which the kernel has everything, and one without a thread.
abbrev plenty : Setup
plenty = record {
  uinfo_ok = true;
  info_ok = true;
  vmem_ok = true;
  register_ret = 0;
  thread_ok = true;
  irq_ok = true;
  coherent_ok = true;
  input_ok = true;
  input_ret = 0;
}

abbrev no_thread : Setup
no_thread = record plenty { thread_ok = false }

probe-success_example :
    ((probe no_thread).0 ≡ 0)
    × ((probe no_thread).1.uinfo ≡ false)
    × ((probe no_thread).1.registered ≡ true)
probe-success_example = probe-success no_thread refl refl refl
