-- ===== src/Ax206/Flush.antt =====
-- drm/ax206-drm-plane.c: the shadow buffer, the dirty rectangle and the blit worker. A flush and a turn
-- of the worker are one step each, though the code copies pixels outside its lock. The counters of
-- ax206-drm-stats.c are left out.
use packages.Base.{
  ℕ, zero, suc, ◌+◌, ◌-◌, Bool, true, false, not, ◌&&◌, ◌||◌, ◌==◌, ltb, leb, if◌then◌else◌,
}
use packages.Base.Int.{ℤ, pos, negsuc}
use packages.Ax206.Screen.{Picture, Display, rotate_pixel}

-- The local variables of `ax206_drm_flush`, and the shadow buffer. Coordinates are below 65536.
pub record Box : Type 0 where
  pub px0 : ℕ
  pub py0 : ℕ
  pub px1 : ℕ
  pub py1 : ℕ
  pub changed : Bool
  pub pixels : Picture

abbrev pub put : ℕ → ℕ → ℕ → Picture → Picture
put x y v p = λ a b. if (a == x) && (b == y) then v else p a b

-- A pixel that differs from the shadow buffer is written and the box grows.
unfoldable pub draw_at : ℕ → ℕ → ℕ → Box → Box
draw_at px py pixel b = if b.pixels px py == pixel then b else record {
  px0 = if ltb px b.px0 then px else b.px0;
  py0 = if ltb py b.py0 then py else b.py0;
  px1 = if ltb b.px1 px then px else b.px1;
  py1 = if ltb b.py1 py then py else b.py1;
  changed = true;
  pixels = put px py pixel b.pixels;
}

-- The body of the two loops past the conversion: what falls outside the panel is left out.
unfoldable pub flush_at : Display → ℤ × ℤ → ℕ → Box → Box
flush_at d (pos px, pos py) pixel b =
    if leb d.width px || leb d.height py then b else draw_at px py pixel b
flush_at d (pos px, negsuc py) pixel b = b
flush_at d (negsuc px, py) pixel b = b

-- The loops: `n` columns from `lx` on, and `n` lines from `ly` on. `source` is the converted pixel of a
-- place of the framebuffer, and past its end what the code reads from the memory there: it has no test,
-- and a read that traps is not modelled.
unfoldable pub flush_row : Display → Picture → ℕ → ℕ → ℕ → Box → Box
flush_row d source zero lx ly b = b
flush_row d source (suc n) lx ly b =
    flush_row d source n (lx + 1) ly (flush_at d (rotate_pixel d lx ly) (source lx ly) b)

unfoldable pub flush_rows : Display → Picture → ℕ → ℕ → ℕ → ℕ → Box → Box
flush_rows d source zero m lx ly b = b
flush_rows d source (suc n) m lx ly b =
    flush_rows d source n m lx (ly + 1) (flush_row d source m lx ly b)

-- The variables before the loops.
abbrev pub empty_box : Display → Box
empty_box d = record {
  px0 = d.width;
  py0 = d.height;
  px1 = 0;
  py1 = 0;
  changed = false;
  pixels = d.shadow;
}

-- The dirty rectangle takes in the box, and the worker is queued.
unfoldable pub mark_dirty : Box → Display → Display
mark_dirty b d = record d {
  shadow = b.pixels;
  dirty_x0 = if d.blit_dirty && leb d.dirty_x0 b.px0 then d.dirty_x0 else b.px0;
  dirty_y0 = if d.blit_dirty && leb d.dirty_y0 b.py0 then d.dirty_y0 else b.py0;
  dirty_x1 = if d.blit_dirty && leb (b.px1 + 1) d.dirty_x1 then d.dirty_x1 else b.px1 + 1;
  dirty_y1 = if d.blit_dirty && leb (b.py1 + 1) d.dirty_y1 then d.dirty_y1 else b.py1 + 1;
  blit_dirty = true;
  blit_active = true;
}

-- `ax206_drm_flush` of the columns from x1 to x2 and the lines from y1 to y2.
unfoldable pub flush : Picture → ℕ → ℕ → ℕ → ℕ → Display → Display
flush source x1 y1 x2 y2 d =
    let b = flush_rows d source (y2 - y1) (x2 - x1) x1 y1 (empty_box d) in
    if not b.changed then d else mark_dirty b d

-- `ax206_drm_blank`.
unfoldable pub blank_panel : Display → Display
blank_panel d = record d {
  shadow = λ x y. 0;
  dirty_x0 = 0;
  dirty_y0 = 0;
  dirty_x1 = d.width;
  dirty_y1 = d.height;
  blit_dirty = true;
  idle_active = false;
  blit_active = true;
}

-- A rectangle that is sent: its place and its pixels.
pub record Blit : Type 0 where
  pub x0 : ℕ
  pub y0 : ℕ
  pub x1 : ℕ
  pub y1 : ℕ
  pub picture : Picture

-- What one turn of the worker does: it stops, leaves the rectangle out, or sends it.
pub data Outcome : Type 0 where
  stopped : Outcome
  skipped : Outcome
  sent : Blit → Outcome

-- The dirty rectangle is taken and cleared.
abbrev pub clear_dirty : Display → Display
clear_dirty d = record d {
  blit_dirty = false;
  dirty_x0 = d.width;
  dirty_y0 = d.height;
  dirty_x1 = 0;
  dirty_y1 = 0;
}

-- One turn of `ax206_drm_blit_work_fn`; `alloc_ok` is what the allocation answers.
unfoldable pub blit_turn : Bool → Display → Outcome × Display
blit_turn alloc_ok d =
    if not d.blit_dirty
    then (stopped, record d { blit_active = false })
    else if d.idle_active || not d.connected
    then (skipped, clear_dirty d)
    else if leb d.dirty_x1 d.dirty_x0
        || (leb d.dirty_y1 d.dirty_y0 || (ltb d.width d.dirty_x1 || ltb d.height d.dirty_y1))
    then (skipped, clear_dirty d)
    else if not alloc_ok
    then (skipped, clear_dirty d)
    else (
      sent (record {
        x0 = d.dirty_x0;
        y0 = d.dirty_y0;
        x1 = d.dirty_x1;
        y1 = d.dirty_y1;
        picture = λ c r. d.shadow (d.dirty_x0 + c) (d.dirty_y0 + r);
      }),
      clear_dirty d,
    )
