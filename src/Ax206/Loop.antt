-- ===== src/Ax206/Loop.antt =====
-- drm/ax206-drm-plane.c: the loop of the blit worker, with the damage that arrives during its transfers.
use packages.Base.{
  ℕ, ◌≡◌, refl, Bool, true, false, List, [], ◌∷◌, ◌++◌, if◌then◌else◌, if-cases, arith,
}
use packages.Ax206.Screen.{Picture, Display}
use packages.Ax206.Flush.{Outcome, stopped, skipped, sent, flush, blit_turn}
use packages.Ax206.Coherent.{shown}

-- A flush: the picture and the rectangle.
pub record Damage : Type 0 where
  pub source : Picture
  pub x1 : ℕ
  pub y1 : ℕ
  pub x2 : ℕ
  pub y2 : ℕ

-- One turn: what the allocation answers, and the flushes that arrive before the next turn.
pub record Round : Type 0 where
  pub alloc_ok : Bool
  pub damages : List Damage

unfoldable pub arrive : List Damage → Display → Display
arrive [] d = d
arrive (g ∷ gs) d = arrive gs (flush g.source g.x1 g.y1 g.x2 g.y2 d)

-- How the worker is found: has it ended, the display, and what the panel shows.
pub record Drawn : Type 0 where
  pub ended : Bool
  pub display : Display
  pub panel : Picture

abbrev pub is_stopped : Outcome → Bool
is_stopped stopped = true
is_stopped skipped = false
is_stopped (sent b) = false

-- `ax206_drm_blit_work_fn`, as many turns as there are rounds.
unfoldable pub work_fn : List Round → Display → Picture → Drawn
work_fn [] d p = record { ended = false; display = d; panel = p }
work_fn (r ∷ rs) d p =
    let t = blit_turn r.alloc_ok d in
    let rest = work_fn rs (arrive r.damages t.1) (shown t.0 p) in
    if is_stopped t.0 then record { ended = true; display = t.1; panel = shown t.0 p } else rest

-- The worker has ended, is not queued, and nothing is dirty.
pub record IsAtRest (w : Drawn) : Type 0 where
  pub ended : w.ended ≡ true
  pub inactive : w.display.blit_active ≡ false
  pub clean : w.display.blit_dirty ≡ false

turn_stops :
    (alloc_ok : Bool) (d : Display)
    → is_stopped (blit_turn alloc_ok d).0 ≡ true
    → ((blit_turn alloc_ok d).1.blit_active ≡ false) × ((blit_turn alloc_ok d).1.blit_dirty ≡ false)
unfolding blit_turn
turn_stops alloc_ok d h = ground (arith, h)

turn_clears : (alloc_ok : Bool) (d : Display) → (blit_turn alloc_ok d).1.blit_dirty ≡ false
unfolding blit_turn
turn_clears alloc_ok d = ground arith

clean_stops :
    (alloc_ok : Bool) (d : Display)
    → d.blit_dirty ≡ false
    → is_stopped (blit_turn alloc_ok d).0 ≡ true
unfolding blit_turn
clean_stops alloc_ok d h = ground (arith, h)

-- A turn on a clean display is the last one.
last_turn :
    (b : Round) (rs : List Round) (d : Display) (p : Picture)
    → d.blit_dirty ≡ false
    → IsAtRest (work_fn (b ∷ rs) d p)
unfolding work_fn
last_turn b rs d p clean =
    let rest = turn_stops b.alloc_ok d (clean_stops b.alloc_ok d clean) in
    if-cases IsAtRest (is_stopped (blit_turn b.alloc_ok d).0)
      (λ yes_stopped. record { ended = refl; inactive = rest.0; clean = rest.1 })
      (λ goes_on. absurd (ground (arith, goes_on, clean_stops b.alloc_ok d clean)))

-- However the damage arrives and the allocations answer, the worker ends at the latest in the second of
-- two turns without new damage: it is not queued then, and nothing is dirty.
pub work_fn-IsAtRest :
    (rs : List Round) (first second : Bool) (d : Display) (p : Picture)
    → let a : Round = record { alloc_ok = first; damages = [] } in
      let b : Round = record { alloc_ok = second; damages = [] } in
      IsAtRest (work_fn (rs ++ a ∷ b ∷ []) d p)
unfolding work_fn arrive
work_fn-IsAtRest [] first second d p =
    if-cases IsAtRest (is_stopped (blit_turn first d).0)
      (λ ends.
        let rest = turn_stops first d ends in
        record { ended = refl; inactive = rest.0; clean = rest.1 })
      (λ goes_on.
        last_turn (record { alloc_ok = second; damages = [] }) [] (blit_turn first d).1
          (shown (blit_turn first d).0 p) (turn_clears first d))
work_fn-IsAtRest (r ∷ rs) first second d p =
    if-cases IsAtRest (is_stopped (blit_turn r.alloc_ok d).0)
      (λ ends.
        let rest = turn_stops r.alloc_ok d ends in
        record { ended = refl; inactive = rest.0; clean = rest.1 })
      (λ goes_on.
        work_fn-IsAtRest rs first second (arrive r.damages (blit_turn r.alloc_ok d).1)
          (shown (blit_turn r.alloc_ok d).0 p))
