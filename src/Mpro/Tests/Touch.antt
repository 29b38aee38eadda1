-- ===== src/Mpro/Tests/Touch.antt =====
-- Touches on concrete panels, and the state of the touch child.
use packages.Base.{ℕ, ◌≡◌, refl, true, false, List, [], ◌∷◌, arith}
use packages.Mpro.Rotation.Mode.{mode, rotate_180}
use packages.Mpro.Rotation.Buffer.{source_spot, dest_spot}
use packages.Mpro.Touch.Coord.{rotate}
use packages.Mpro.Touch.Urb.{TouchUrb}
use packages.Mpro.Touch.Input.{
  Input, input_open, input_close, screen_off, screen_on, handle_packet, release_timeout,
}
use packages.Mpro.Touch.Screen.{at, rotate-upright}
use packages.Mpro.Touch.Gate.{IsConsistent, callbacks-IsConsistent}
use packages.Mpro.Tests.Data.{panel, device}

rotate-upright_example :
    let r = mode rotate_180 true false in
    rotate r 480 800 (at (dest_spot 480 800 r 10 20)) ≡ at (source_spot 480 800 r 10 20)
rotate-upright_example =
    rotate-upright 480 800 10 20 (omega arith) (omega arith) (omega arith) (omega arith) true false
      true

abbrev stopped_urb : TouchUrb
stopped_urb = record { urb = true; buf = true; submitted = false; in_host = false }

abbrev child : Input
child = record {
  opened = false;
  screen_on = true;
  timer = false;
  any_active = false;
  wake = true;
  urb = stopped_urb;
}

child-IsConsistent : IsConsistent child
child-IsConsistent = record { tracked = refl; allocated = refl; watched = refl }

-- Two active touches, and one byte after them.
abbrev packet : List ℕ
packet = 0 ∷ 0 ∷ 2 ∷ 0x81 ∷ 0x10 ∷ 0x02 ∷ 0x20 ∷ 0 ∷ 0 ∷ 0x80 ∷ 0x30 ∷ 0x11 ∷ 0x40 ∷ 9 ∷ []

callbacks-IsConsistent_example :
    IsConsistent (input_open 0 child)
    × IsConsistent (input_close 0 child device).0
    × IsConsistent (screen_off 0 child)
    × IsConsistent (screen_on 0 child)
    × IsConsistent (handle_packet panel 20 packet child device).0
    × IsConsistent (release_timeout child).0
callbacks-IsConsistent_example =
    callbacks-IsConsistent 0 panel 20 packet child device child-IsConsistent
