-- ===== src/Ax206/Turned.antt =====
-- drm/ax206-drm-rotation.c and ax206-drm-plane.c: a panel that is wider than high, turned by 90 degrees.
use packages.Base.{
  ℕ, zero, suc, ◌+◌, ◌-◌, ◌≤◌, ◌<◌, ◌≡◌, refl, ◌∙◌, Bool, true, not, ltb, if-cases, arith,
}
use packages.Base.Int.{ℤ, pos, negsuc}
use packages.Ax206.Screen.{Picture, Display, rotate_pixel}
use packages.Ax206.Flush.{
  Box, draw_at, flush_at, flush_row, flush_rows, empty_box, mark_dirty, flush,
}

-- A place whose column is at least `n` or that is outside the panel.
abbrev left_of : ℕ → ℤ × ℤ → Bool
left_of n (pos px, py) = ltb px n
left_of n (negsuc px, py) = true

turned_left :
    (d : Display) (lx ly : ℕ)
    → d.rotation ≡ 1
    → 0 < d.height
    → left_of d.height (rotate_pixel d lx ly) ≡ true
unfolding rotate_pixel
turned_left d lx ly h high = ground arith

module _ (d : Display) (x y n : ℕ) (far : n ≤ x) where
  at_keeps :
      (at : ℤ × ℤ) (pixel : ℕ) (b : Box)
      → left_of n at ≡ true
      → (flush_at d at pixel b).pixels x y ≡ b.pixels x y
  unfolding flush_at draw_at
  at_keeps (pos px, pos py) pixel b h = ground arith
  at_keeps (pos px, negsuc py) pixel b h = refl
  at_keeps (negsuc px, py) pixel b h = refl

module _ (d : Display) (source : Picture) (x y : ℕ) (turned : d.rotation ≡ 1) (high : 0 < d.height)
    (far : d.height ≤ x) where
  row_keeps : (n lx ly : ℕ) (b : Box) → (flush_row d source n lx ly b).pixels x y ≡ b.pixels x y
  unfolding flush_row
  row_keeps zero lx ly b = refl
  row_keeps (suc n) lx ly b =
      row_keeps n (lx + 1) ly _
      ∙ at_keeps d x y d.height far (rotate_pixel d lx ly) (source lx ly) b
          (turned_left d lx ly turned high)

  rows_keep :
      (n m lx ly : ℕ) (b : Box) → (flush_rows d source n m lx ly b).pixels x y ≡ b.pixels x y
  unfolding flush_rows
  rows_keep zero m lx ly b = refl
  rows_keep (suc n) m lx ly b = rows_keep n m lx (ly + 1) _ ∙ row_keeps m lx ly b

-- Turned by 90 degrees, the columns of the panel from its height on are never drawn: no flush of any
-- picture and rectangle changes them.
pub flush-turned :
    (d : Display) (source : Picture) (x y x1 y1 x2 y2 : ℕ)
    → d.rotation ≡ 1
    → 0 < d.height
    → d.height ≤ x
    → (flush source x1 y1 x2 y2 d).shadow x y ≡ d.shadow x y
unfolding flush mark_dirty
flush-turned d source x y x1 y1 x2 y2 turned high far =
    let b = flush_rows d source (y2 - y1) (x2 - x1) x1 y1 (empty_box d) in
    if-cases (λ (e : Display). e.shadow x y ≡ d.shadow x y) (not b.changed) (λ same. refl)
      (λ other. rows_keep d source x y turned high far (y2 - y1) (x2 - x1) x1 y1 (empty_box d))
