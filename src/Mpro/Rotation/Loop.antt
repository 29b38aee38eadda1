-- ===== src/Mpro/Rotation/Loop.antt =====
-- mpro_drm_color.c: the two loops of `mpro_drm__rotate_buffer` put every pixel where it belongs.
use Prim.Native.Nat.{ℕ}
use packages.Base.{
  zero, suc, ◌+◌, ◌*◌, ◌≤◌, ◌<◌, ◌≡◌, inl, inr, refl, ap, ◌∙◌, true, List, [], ◌∷◌, ◌++◌, arith,
  length, get_or, set, take, drop, Bool-cases,
}
use packages.Mpro.Rotation.Buffer.{
  index, source_spot, dest_spot, rotate_row, rotate_rows, rotate_buffer, is_straight,
}
use packages.Base.Grid.{paint_row, paint_rows, rows_write}
use packages.Mpro.Rotation.Place.{dest_injective, dest_bound}

module _ (w h r : ℕ) (src : List ℕ) where
  -- Where the pixel (x, y) is written, and what is written there.
  abbrev pub target : ℕ → ℕ → ℕ
  target x y = index (dest_spot w h r x y)

  abbrev pub picked : ℕ → ℕ → ℕ
  picked x y = get_or src (index (source_spot w h r x y)) 0

  rotate_row_lem :
      (n x y : ℕ) (dst : List ℕ)
      → rotate_row w h r src n x y dst ≡ paint_row target picked n x y dst
  unfolding rotate_row paint_row
  rotate_row_lem zero x y dst = refl
  rotate_row_lem (suc n) x y dst = rotate_row_lem n (x + 1) y (set dst (target x y) (picked x y))

  -- The two loops of the source write each pixel of the picture once.
  rotate_rows_lem :
      (n y : ℕ) (dst : List ℕ)
      → rotate_rows w h r src n y dst ≡ paint_rows target picked n w 0 y dst
  unfolding rotate_rows paint_rows
  rotate_rows_lem zero y dst = refl
  rotate_rows_lem (suc n) y dst =
      rotate_rows_lem n (y + 1) (rotate_row w h r src w 0 y dst)
      ∙ ap (paint_rows target picked n w 0 (y + 1)) (rotate_row_lem w 0 y dst)

get_or-take-append :
    (n k : ℕ) (xs ys : List ℕ)
    → k < n
    → n ≤ length xs
    → get_or (take n xs ++ ys) k 0 ≡ get_or xs k 0
get_or-take-append zero k xs ys h l = absurd (omega arith)
get_or-take-append (suc n) k [] ys h l = absurd (omega arith)
get_or-take-append (suc n) zero (x ∷ xs) ys h l = refl
get_or-take-append (suc n) (suc k) (x ∷ xs) ys h l =
    get_or-take-append n k xs ys (omega arith) (omega arith)

-- The fast path: the picture is copied, and each pixel stays where it is.
straight_spots :
    (w h r x y : ℕ)
    → is_straight r ≡ true
    → (index (dest_spot w h r x y) ≡ y * w + x) × (index (source_spot w h r x y) ≡ y * w + x)
unfolding dest_spot source_spot is_straight
straight_spots w h r x y e = ground arith

-- For every rotation value, picture size and destination buffer that is large enough: each pixel of
-- the picture ends at its destination with the value of its source.
pub rotate_buffer-places :
    (w h r x y : ℕ) (src dst : List ℕ)
    → w * h ≤ length src
    → w * h ≤ length dst
    → x < w
    → y < h
    → get_or (rotate_buffer w h r src dst) (target w h r src x y) 0 ≡ picked w h r src x y
unfolding rotate_buffer
rotate_buffer-places w h r x y src dst fs fd hx hy = elim (Bool-cases (is_straight r)) [
  | inl e ↦
      let spots = straight_spots w h r x y e in
      rw (e, spots.0, spots.1)
        (get_or-take-append (w * h) (y * w + x) src (drop (w * h) dst)
          (rw (← spots.0) (dest_bound w h r x y hx hy)) fs)
  | inr e ↦
      rw (e, rotate_rows_lem w h r src h 0 dst)
        (rows_write (target w h r src) (picked w h r src) w h (w * h) (dest_injective w h r)
          (dest_bound w h r) h w 0 0 x y dst fd (omega arith) (omega arith) (omega arith)
          (omega arith) (omega arith) (omega arith))
]
