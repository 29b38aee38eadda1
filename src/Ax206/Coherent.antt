-- ===== src/Ax206/Coherent.antt =====
-- drm/ax206-drm-plane.c: the panel and the shadow buffer.
use packages.Base.{
  ℕ, zero, suc, ◌+◌, ◌-◌, ◌≤◌, ◌<◌, ◌≡◌, ◌⊎◌, inl, inr, refl, ◌∙◌, Bool-cases, true, false, not,
  ◌&&◌, ◌||◌, ◌==◌, ltb, leb, if◌then◌else◌, if-cases, arith,
}
use packages.Base.Int.{ℤ, pos, negsuc}
use packages.Ax206.Screen.{Picture, Display, rotate_pixel}
use packages.Ax206.Flush.{
  Box, draw_at, flush_at, flush_row, flush_rows, empty_box, mark_dirty, flush, blank_panel, Outcome,
  stopped, skipped, sent,
}

-- What the panel shows after a turn of the worker: a rectangle that is sent replaces what was there.
abbrev pub shown : Outcome → Picture → Picture
shown stopped p = p
shown skipped p = p
shown (sent b) p = λ x y.
    if leb b.x0 x && (ltb x b.x1 && (leb b.y0 y && ltb y b.y1))
    then b.picture (x - b.x0) (y - b.y0)
    else p x y

-- The box holds every pixel that differs from the picture before the loops.
record IsBox (d : Display) (b : Box) : Type 0 where
  grown :
      (x y : ℕ)
      → (b.pixels x y ≡ d.shadow x y)
        ⊎ ((b.changed ≡ true) × (b.px0 ≤ x) × (x ≤ b.px1) × (b.py0 ≤ y) × (y ≤ b.py1))
  ordered : b.changed ≡ true → (b.px0 ≤ b.px1) × (b.py0 ≤ b.py1)
  right : b.px1 < d.width
  below : b.py1 < d.height

module _ (d : Display) where
  draw_at-IsBox :
      (px py pixel : ℕ) (b : Box)
      → px < d.width
      → py < d.height
      → IsBox d b
      → IsBox d (draw_at px py pixel b)
  unfolding draw_at
  draw_at-IsBox px py pixel b hx hy h =
      if-cases (IsBox d) (b.pixels px py == pixel) (λ same. h)
        (λ other. record {
          grown = λ x y. elim (Bool-cases ((x == px) && (y == py))) [
            | inl here ↦ inr (ground arith)
            | inr away ↦ elim (h.grown x y) [
              | inl e ↦ inl (rw away e)
              | inr k ↦ inr (ground (arith, k))
            ]
          ];
          ordered = λ e. (ground arith, ground arith);
          right = ground (arith, h.right);
          below = ground (arith, h.below);
        })

  flush_at-IsBox : (at : ℤ × ℤ) (pixel : ℕ) (b : Box) → IsBox d b → IsBox d (flush_at d at pixel b)
  unfolding flush_at
  flush_at-IsBox (pos px, pos py) pixel b h =
      if-cases (IsBox d) (leb d.width px || leb d.height py) (λ out. h)
        (λ on. draw_at-IsBox px py pixel b (ground (arith, on)) (ground (arith, on)) h)
  flush_at-IsBox (pos px, negsuc py) pixel b h = h
  flush_at-IsBox (negsuc px, py) pixel b h = h

  flush_row-IsBox :
      (source : Picture) (n lx ly : ℕ) (b : Box)
      → IsBox d b
      → IsBox d (flush_row d source n lx ly b)
  unfolding flush_row
  flush_row-IsBox source zero lx ly b h = h
  flush_row-IsBox source (suc n) lx ly b h =
      flush_row-IsBox source n (lx + 1) ly _
        (flush_at-IsBox (rotate_pixel d lx ly) (source lx ly) b h)

  flush_rows-IsBox :
      (source : Picture) (n m lx ly : ℕ) (b : Box)
      → IsBox d b
      → IsBox d (flush_rows d source n m lx ly b)
  unfolding flush_rows
  flush_rows-IsBox source zero m lx ly b h = h
  flush_rows-IsBox source (suc n) m lx ly b h =
      flush_rows-IsBox source n m lx (ly + 1) _ (flush_row-IsBox source m lx ly b h)

-- The panel shows the shadow buffer, up to the pixels of the dirty rectangle, which lies in the panel;
-- while it is not empty the worker is queued.
pub record IsCoherent (d : Display) (panel : Picture) : Type 0 where
  pub agrees :
      (x y : ℕ)
      → (d.shadow x y ≡ panel x y)
        ⊎ ((d.blit_dirty ≡ true)
            × (d.dirty_x0 ≤ x)
            × (x < d.dirty_x1)
            × (d.dirty_y0 ≤ y)
            × (y < d.dirty_y1))
        ⊎ ((d.width ≤ x) ⊎ (d.height ≤ y))
  pub fits :
      (d.blit_dirty ≡ false)
      ⊎ ((d.dirty_x0 < d.dirty_x1)
          × (d.dirty_y0 < d.dirty_y1)
          × (d.dirty_x1 ≤ d.width)
          × (d.dirty_y1 ≤ d.height)
          × (d.blit_active ≡ true))
  pub wide : 0 < d.width
  pub high : 0 < d.height

mark_dirty-IsCoherent :
    (d : Display) (b : Box) (panel : Picture)
    → b.changed ≡ true
    → IsBox d b
    → IsCoherent d panel
    → IsCoherent (mark_dirty b d) panel
unfolding mark_dirty
mark_dirty-IsCoherent d b panel changed box h = record {
  agrees = λ x y. elim (box.grown x y) [
    | inl kept ↦ elim (h.agrees x y) [
      | inl same ↦ inl (kept ∙ same)
      | inr (inl k) ↦ inr (inl (ground (arith, k)))
      | inr (inr out) ↦ inr (inr out)
    ]
    | inr k ↦ inr (inl (ground (arith, k)))
  ];
  fits = inr (
    ground (arith, box.ordered changed, h.fits),
    ground (arith, box.ordered changed, h.fits),
    ground (arith, box.right, h.fits),
    ground (arith, box.below, h.fits),
    refl,
  );
  wide = h.wide;
  high = h.high;
}

empty_box-IsBox : (d : Display) → 0 < d.width → 0 < d.height → IsBox d (empty_box d)
empty_box-IsBox d wide high = record {
  grown = λ x y. inl refl;
  ordered = λ e. absurd (ground (arith, e));
  right = wide;
  below = high;
}

pub flush-IsCoherent :
    (d : Display) (panel source : Picture) (x1 y1 x2 y2 : ℕ)
    → IsCoherent d panel
    → IsCoherent (flush source x1 y1 x2 y2 d) panel
unfolding flush
flush-IsCoherent d panel source x1 y1 x2 y2 h =
    let b = flush_rows d source (y2 - y1) (x2 - x1) x1 y1 (empty_box d) in
    let box =
      flush_rows-IsBox d source (y2 - y1) (x2 - x1) x1 y1 (empty_box d)
        (empty_box-IsBox d h.wide h.high) in
    if-cases (λ e. IsCoherent e panel) (not b.changed) (λ same. h)
      (λ other. mark_dirty-IsCoherent d b panel (ground (arith, other)) box h)

pub blank-IsCoherent :
    (d : Display) (panel : Picture) → IsCoherent d panel → IsCoherent (blank_panel d) panel
unfolding blank_panel
blank-IsCoherent d panel h = record {
  agrees = λ x y. elim (Bool-cases (ltb x d.width && ltb y d.height)) [
    | inl inside ↦ inr (inl (refl, omega arith, ground arith, omega arith, ground arith))
    | inr out ↦ inr (inr (ground arith))
  ];
  fits = inr (h.wide, h.high, omega arith, omega arith, refl);
  wide = h.wide;
  high = h.high;
}
