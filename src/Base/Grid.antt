-- ===== src/Base/Grid.antt =====
-- Rectangles of a buffer that is stored line after line, and loops that write one item for each
-- column and line.
use Prim.Native.Nat.{ℕ, zero, suc, ◌+◌, ◌*◌, ◌≤◌, ◌<◌}
use mathlib.Core.Path.{◌≡◌, refl, ap, ◌∙◌}
use mathlib.Core.Logic.{◌≢◌, ◌⊎◌, inl, inr}
use mathlib.Core.List.{List}
use native.Mathlib.Decide.{dec_lt, ℕ_discrete}
use native.Mathlib.Omega.{arith}
use packages.Base.Lists.{length, get_or, set, length-set, get_or-set_self, get_or-set_ne}

pub line_lt : (n a b c d : ℕ) → b < n → a < c → a * n + b < c * n + d
line_lt n a b c d hb h = grind arith

-- A place in a buffer determines its line and its column.
pub index_injective : (n a b c d : ℕ) → b < n → d < n → a * n + b ≡ c * n + d → (a ≡ c) × (b ≡ d)
index_injective n a b c d hb hd e = elim (dec_lt a c) [
  | yes lt ↦ absurd (omega (arith, line_lt n a b c d hb lt))
  | no ge ↦ elim (dec_lt c a) [
    | yes lt ↦ absurd (omega (arith, line_lt n c d a b hd lt))
    | no le ↦ let same : a ≡ c = omega arith in (same, omega (arith, ap (λ (t : ℕ). t * n) same))
  ]
]

pub index_bound : (n m a b : ℕ) → a < m → b < n → a * n + b < m * n
index_bound n m a b ha hb = grind arith

module _ (target picked : ℕ → ℕ → ℕ) where
  -- `n` columns from `x` on, of the line `y`.
  unfoldable pub paint_row : ℕ → ℕ → ℕ → List ℕ → List ℕ
  paint_row zero x y dst = dst
  paint_row (suc n) x y dst = paint_row n (x + 1) y (set dst (target x y) (picked x y))

  -- `n` lines from `y` on, each with `m` columns from `x` on.
  unfoldable pub paint_rows : ℕ → ℕ → ℕ → ℕ → List ℕ → List ℕ
  unfolding paint_row
  paint_rows zero m x y dst = dst
  paint_rows (suc n) m x y dst = paint_rows n m x (y + 1) (paint_row m x y dst)

  pub length-paint_row : (n x y : ℕ) (dst : List ℕ) → length (paint_row n x y dst) ≡ length dst
  unfolding paint_row
  length-paint_row zero x y dst = refl
  length-paint_row (suc n) x y dst =
      length-paint_row n (x + 1) y (set dst (target x y) (picked x y))
      ∙ length-set dst (target x y) (picked x y)

  pub length-paint_rows :
      (n m x y : ℕ) (dst : List ℕ) → length (paint_rows n m x y dst) ≡ length dst
  unfolding paint_rows
  length-paint_rows zero m x y dst = refl
  length-paint_rows (suc n) m x y dst =
      length-paint_rows n m x (y + 1) (paint_row m x y dst) ∙ length-paint_row m x y dst

  -- In a picture of `w` by `h` two pixels have two targets, below `size`.
  module _ (w h size : ℕ)
      (apart : (x y x' y' : ℕ)
        → x < w
        → y < h
        → x' < w
        → y' < h
        → target x y ≡ target x' y'
        → (x ≡ x') × (y ≡ y'))
      (bound : (x y : ℕ) → x < w → y < h → target x y < size) where
    row_keeps :
        (n x y x' y' : ℕ) (dst : List ℕ)
        → x + n ≤ w
        → y < h
        → x' < w
        → y' < h
        → (x' < x) ⊎ (y ≢ y')
        → get_or (paint_row n x y dst) (target x' y') 0 ≡ get_or dst (target x' y') 0
    unfolding paint_row
    row_keeps zero x y x' y' dst l hy hx' hy' k = refl
    row_keeps (suc n) x y x' y' dst l hy hx' hy' k =
        row_keeps n (x + 1) y x' y' (set dst (target x y) (picked x y)) (omega arith) hy hx' hy'
          (ground arith)
        ∙ get_or-set_ne dst (target x y) (target x' y') (picked x y) 0 others
      where
        others : target x y ≢ target x' y'
        others e = ground (arith, apart x y x' y' (omega arith) hy hx' hy' e)

    row_writes :
        (n x y x' : ℕ) (dst : List ℕ)
        → size ≤ length dst
        → x + n ≤ w
        → y < h
        → x ≤ x'
        → x' < x + n
        → get_or (paint_row n x y dst) (target x' y) 0 ≡ picked x' y
    unfolding paint_row
    row_writes zero x y x' dst f l hy lo hi = absurd (omega arith)
    row_writes (suc n) x y x' dst f l hy lo hi = elim (ℕ_discrete x x') [
      | yes e ↦
          row_keeps n (x + 1) y x' y (set dst (target x y) (picked x y)) (omega arith) hy
            (omega arith) hy (inl (omega arith))
          ∙ rw e (
              get_or-set_self dst (target x' y) (picked x' y) 0
                (omega (arith, bound x' y (omega arith) hy)))
      | no ne ↦
          row_writes n (x + 1) y x' (set dst (target x y) (picked x y))
            (omega (arith, length-set dst (target x y) (picked x y))) (omega arith) hy (omega arith)
            (omega arith)
    ]

    rows_keep :
        (n m x y x' y' : ℕ) (dst : List ℕ)
        → x + m ≤ w
        → y + n ≤ h
        → x' < w
        → y' < y
        → get_or (paint_rows n m x y dst) (target x' y') 0 ≡ get_or dst (target x' y') 0
    unfolding paint_rows
    rows_keep zero m x y x' y' dst k l hx' hy' = refl
    rows_keep (suc n) m x y x' y' dst k l hx' hy' =
        rows_keep n m x (y + 1) x' y' (paint_row m x y dst) k (omega arith) hx' (omega arith)
        ∙ row_keeps m x y x' y' dst k (omega arith) hx' (omega arith) (inr (omega arith))

    -- After the two loops each pixel of the rectangle is at its target.
    pub rows_write :
        (n m x y x' y' : ℕ) (dst : List ℕ)
        → size ≤ length dst
        → x + m ≤ w
        → y + n ≤ h
        → x ≤ x'
        → x' < x + m
        → y ≤ y'
        → y' < y + n
        → get_or (paint_rows n m x y dst) (target x' y') 0 ≡ picked x' y'
    unfolding paint_rows
    rows_write zero m x y x' y' dst f k l lx hx lo hi = absurd (omega arith)
    rows_write (suc n) m x y x' y' dst f k l lx hx lo hi = elim (ℕ_discrete y y') [
      | yes e ↦
          rows_keep n m x (y + 1) x' y' (paint_row m x y dst) k (omega arith) (omega arith)
            (omega arith)
          ∙ rw e (row_writes m x y' x' dst f k (omega arith) lx hx)
      | no ne ↦
          rows_write n m x (y + 1) x' y' (paint_row m x y dst)
            (omega (arith, length-paint_row m x y dst)) k (omega arith) lx hx (omega arith)
            (omega arith)
    ]
