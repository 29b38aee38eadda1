-- ===== src/Ax206/Tests.antt =====
-- Examples of the AX206 driver: each theorem with hypotheses, applied where they hold.
use packages.Base.{ℕ, ◌<◌, ◌≡◌, refl, inl, true, false, List, arith}
use packages.Base.{[], ◌∷◌, some}
use packages.Ax206.Idle.{Panel, level, pipe_enable, pipe_disable, bl_update_status, bl_work_fn}
use packages.Ax206.Dark.{levels, no_call, then_call, enables, brightens, bl_runs, pipe_disable-dark}
use packages.Ax206.Screen.{Picture, Display}
use packages.Ax206.Flush.{flush, blank_panel, blit_turn}
use packages.Ax206.Coherent.{shown, IsCoherent}
use packages.Ax206.Worker.{
  Updates, none_yet, then_update, flushes, blanks, works, Updates-IsCoherent,
}
use packages.Ax206.Turned.{flush-turned}
use packages.Ax206.Loop.{Round, work_fn, IsAtRest, work_fn-IsAtRest}
use packages.Ax206.Drained.{work_fn-drained}

-- A panel of 3 by 2 pixels, which is black, as the shadow buffer is.
abbrev black : Picture
black x y = 0

abbrev display : Display
display = record {
  width = 3;
  height = 2;
  rotation = 1;
  shadow = black;
  blit_dirty = false;
  dirty_x0 = 3;
  dirty_y0 = 2;
  dirty_x1 = 0;
  dirty_y1 = 0;
  blit_active = false;
  idle_active = false;
  connected = true;
}

display-IsCoherent : IsCoherent display black
display-IsCoherent = record {
  agrees = λ x y. inl refl;
  fits = inl refl;
  wide = omega arith;
  high = omega arith;
}

abbrev drawing : Picture
drawing x y = 7

abbrev blanked : Display
blanked = blank_panel display

-- The panel is made black, the worker sends that, and a turned drawing of 2 by 3 pixels follows.
abbrev worked : Display
worked = (blit_turn true blanked).1

abbrev panel : Picture
panel = shown (blit_turn true blanked).0 black

blanked_state : (blanked.connected ≡ true) × (blanked.idle_active ≡ false)
unfolding blank_panel
blanked_state = (refl, refl)

history : Updates display black (flush drawing 0 0 2 3 worked) panel
history =
    then_update (then_update (then_update none_yet blanks) (works blanked_state.0 blanked_state.1))
      (flushes drawing 0 0 2 3)

Updates-IsCoherent_example : IsCoherent (flush drawing 0 0 2 3 worked) panel
Updates-IsCoherent_example = Updates-IsCoherent display-IsCoherent history

flush-turned_example : (flush drawing 0 0 2 3 display).shadow 2 0 ≡ 0
flush-turned_example = flush-turned display drawing 2 0 0 0 2 3 refl (omega arith) (omega arith)

-- The panel is idle, with the backlight off, and the pipe is closed; then it is opened again, the
-- brightness is set to 5, and the work item of the backlight runs.
abbrev idle_panel : Panel
idle_panel = record {
  display = record display { idle_active = true };
  noblank = false;
  cleared = true;
  idle_timeout_s = 0;
  timer_set = false;
  idle_queued = false;
  resume_queued = false;
  blanked = true;
  backlight = 7;
  bl_works = [];
  wire = level 0 ∷ [];
}

abbrev opened : Panel
opened = pipe_enable (some 7) (pipe_disable idle_panel)

abbrev brighter : Panel
brighter = (bl_update_status true 5 opened).1

pipe_disable-dark_example : levels (bl_work_fn brighter).wire ≡ levels idle_panel.wire
pipe_disable-dark_example =
    pipe_disable-dark idle_panel refl refl refl
      (then_call (then_call (then_call no_call (enables (some 7))) (brightens true 5)) bl_runs)

-- A drawing arrives while the worker sends the black panel; it sends it in its next turn.
abbrev busy_round : Round
busy_round = record {
  alloc_ok = true;
  damages = record { source = drawing; x1 = 0; y1 = 0; x2 = 2; y2 = 3 } ∷ [];
}

abbrev quiet : Round
quiet = record { alloc_ok = true; damages = [] }

abbrev three_rounds : List Round
three_rounds = busy_round ∷ quiet ∷ quiet ∷ []

work_fn-IsAtRest_example : IsAtRest (work_fn three_rounds blanked black)
work_fn-IsAtRest_example = work_fn-IsAtRest (busy_round ∷ []) true true blanked black

blanked-IsCoherent : IsCoherent blanked black
blanked-IsCoherent = Updates-IsCoherent display-IsCoherent (then_update none_yet blanks)

work_fn-drained_example :
    let w = work_fn three_rounds blanked black in
    (w.ended ≡ true)
    × ((x y : ℕ) → x < w.display.width → y < w.display.height → w.display.shadow x y ≡ w.panel x y)
work_fn-drained_example =
    work_fn-drained (busy_round ∷ []) blanked black blanked_state.0 blanked_state.1
      blanked-IsCoherent (refl, tt)
