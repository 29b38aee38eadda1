-- ===== src/Ax206/Worker.antt =====
-- drm/ax206-drm-plane.c: the blit worker, and any sequence of updates.
use packages.Base.{
  ℕ, ◌+◌, ◌-◌, ◌<◌, ◌≡◌, inl, inr, refl, Bool-cases, true, false, not, ◌&&◌, ◌||◌, ltb, leb,
  if◌then◌else◌, if-cases, arith,
}
use mathlib.Core.Path.{ap₂}
use packages.Ax206.Screen.{Picture, Display}
use packages.Ax206.Flush.{flush, blank_panel, Outcome, blit_turn}
use packages.Ax206.Coherent.{shown, IsCoherent, flush-IsCoherent, blank-IsCoherent}

-- The pixel of a rectangle that is sent, or the one that was there.
rect_shows :
    (d : Display) (panel : Picture) (x y : ℕ)
    → IsCoherent d panel
    → x < d.width
    → y < d.height
    → d.shadow x y ≡ (
        if leb d.dirty_x0 x && (ltb x d.dirty_x1 && (leb d.dirty_y0 y && ltb y d.dirty_y1))
        then d.shadow (d.dirty_x0 + (x - d.dirty_x0)) (d.dirty_y0 + (y - d.dirty_y0))
        else panel x y)
rect_shows d panel x y h hx hy =
    if-cases (λ v. d.shadow x y ≡ v)
      (leb d.dirty_x0 x && (ltb x d.dirty_x1 && (leb d.dirty_y0 y && ltb y d.dirty_y1)))
      (λ inside.
        let column : x ≡ d.dirty_x0 + (x - d.dirty_x0) = ground arith in
        let line : y ≡ d.dirty_y0 + (y - d.dirty_y0) = ground arith in ap₂ d.shadow column line)
      (λ outside. elim (h.agrees x y) [
        | inl same ↦ same
        | inr (inl k) ↦ absurd (ground (arith, k, outside))
        | inr (inr out) ↦ absurd (ground (arith, out))
      ])

-- After a turn in which the rectangle can be sent and whose transfer succeeds, from a display that
-- agrees with the panel outside the dirty rectangle, that rectangle is empty and every pixel of the
-- panel shows the shadow buffer.
pub blit_turn-shows :
    (d : Display) (panel : Picture) (x y : ℕ)
    → IsCoherent d panel
    → d.connected ≡ true
    → d.idle_active ≡ false
    → x < d.width
    → y < d.height
    → let r = blit_turn true d in (r.1.blit_dirty ≡ false) × (r.1.shadow x y ≡ shown r.0 panel x y)
unfolding blit_turn
blit_turn-shows d panel x y h on awake hx hy =
    let P : Outcome × Display → Type 0 =
      λ r. (r.1.blit_dirty ≡ false) × (r.1.shadow x y ≡ shown r.0 panel x y) in
    if-cases P (not d.blit_dirty)
      (λ clean. (ground (arith, clean), ground (arith, clean, h.agrees x y)))
      (λ dirty.
        if-cases P (d.idle_active || not d.connected) (λ off. absurd (ground (arith, off)))
          (λ alive.
            if-cases P
              (leb d.dirty_x1 d.dirty_x0
                || (leb d.dirty_y1 d.dirty_y0
                    || (ltb d.width d.dirty_x1 || ltb d.height d.dirty_y1)))
              (λ bad. absurd (ground (arith, bad, dirty, h.fits)))
              (λ good. (refl, rect_shows d panel x y h hx hy))))

turn_keeps :
    (d : Display) → let e = (blit_turn true d).1 in (e.width ≡ d.width) × (e.height ≡ d.height)
unfolding blit_turn
turn_keeps d = ground arith

turn_clean :
    {panel : Picture} (d : Display)
    → IsCoherent d panel
    → d.connected ≡ true
    → d.idle_active ≡ false
    → (blit_turn true d).1.blit_dirty ≡ false
turn_clean {panel} d h on awake = (blit_turn-shows d panel 0 0 h on awake h.wide h.high).0

turn-IsCoherent :
    (d : Display) (panel : Picture)
    → IsCoherent d panel
    → d.connected ≡ true
    → d.idle_active ≡ false
    → IsCoherent (blit_turn true d).1 (shown (blit_turn true d).0 panel)
turn-IsCoherent d panel h on awake =
    let e = (blit_turn true d).1 in
    let kept = turn_keeps d in
    record {
      agrees = λ x y. elim (Bool-cases (ltb x d.width && ltb y d.height)) [
        | inl inside ↦ inl (blit_turn-shows d panel x y h on awake (ground arith) (ground arith)).1
        | inr out ↦ inr (inr (ground (arith, kept)))
      ];
      fits = inl (turn_clean d h on awake);
      wide = rw (kept.0) h.wide;
      high = rw (kept.1) h.high;
    }

-- What happens to the display and to the panel: a commit is flushed, the panel is blanked, the
-- rotation changes, or the worker makes a turn in which it can send.
pub data Update (d : Display) (p : Picture) : Display → Picture → Type 0 where
  flushes : (source : Picture) (x1 y1 x2 y2 : ℕ) → Update d p (flush source x1 y1 x2 y2 d) p
  blanks : Update d p (blank_panel d) p
  rotates : (rot : ℕ) → Update d p (record d { rotation = rot }) p
  works :
      d.connected ≡ true
      → d.idle_active ≡ false
      → Update d p (blit_turn true d).1 (shown (blit_turn true d).0 p)

pub data Updates (d : Display) (p : Picture) : Display → Picture → Type 0 where
  none_yet : Updates d p d p
  then_update : {e f : Display} {q r : Picture} → Updates d p e q → Update e q f r → Updates d p f r

pub Update-IsCoherent :
    {d e : Display} {p q : Picture} → Update d p e q → IsCoherent d p → IsCoherent e q
Update-IsCoherent {d} {p = p} (flushes source x1 y1 x2 y2) h =
    flush-IsCoherent d p source x1 y1 x2 y2 h
Update-IsCoherent {d} {p = p} blanks h = blank-IsCoherent d p h
Update-IsCoherent (rotates rot) h = record {
  agrees = h.agrees;
  fits = h.fits;
  wide = h.wide;
  high = h.high;
}
Update-IsCoherent {d} {p = p} (works on awake) h = turn-IsCoherent d p h on awake

-- From a display and a panel that agree so, over any sequence of flushes of any rectangles, blank
-- screens, changes of the rotation and turns of the worker that can send and whose transfers succeed:
-- the panel shows the shadow buffer at every pixel outside the dirty rectangle, the dirty rectangle is
-- empty or lies in the panel, and while it is not empty the worker is queued.
pub Updates-IsCoherent :
    {d : Display} {p : Picture} {e : Display} {q : Picture}
    → IsCoherent d p
    → Updates d p e q
    → IsCoherent e q
Updates-IsCoherent h none_yet = h
Updates-IsCoherent h (then_update r u) = Update-IsCoherent u (Updates-IsCoherent h r)
