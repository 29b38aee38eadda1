-- ===== src/Mpro/Rotation/Place.antt =====
-- mpro_drm_color.c: the destinations of `mpro_drm__rotate_buffer` are in the buffer and apart.
use packages.Base.{ℕ, ◌+◌, ◌*◌, ◌<◌, ◌≡◌, ◌⊎◌, inl, inr, ◌∙◌, arith}
use packages.Base.Grid.{index_injective, index_bound}
use packages.Base.{ap, sym}
use packages.Mpro.Rotation.Buffer.{index, dest_spot}

module _ (w h r x y : ℕ) (hx : x < w) (hy : y < h) where
  -- The destination lies in a picture of `w` by `h`, or of `h` by `w`.
  dest_shape :
      let s = dest_spot w h r x y in
      (s.col < s.stride) × (((s.stride ≡ w) × (s.line < h)) ⊎ ((s.stride ≡ h) × (s.line < w)))
  unfolding dest_spot
  dest_shape = ground arith

  pub dest_bound : index (dest_spot w h r x y) < w * h
  dest_bound = elim (dest_shape.1) [
    | inl k ↦ rw k.0 (
        omega (
          arith,
          index_bound w h (dest_spot w h r x y).line (dest_spot w h r x y).col k.1
              (rw k.0 at dest_shape.0),
        ))
    | inr k ↦ rw k.0 (
        index_bound h w (dest_spot w h r x y).line (dest_spot w h r x y).col k.1
          (rw k.0 at dest_shape.0))
  ]

  -- Two pixels have two destinations.
  module _ (x' y' : ℕ) (hx' : x' < w) (hy' : y' < h) where
    pub dest_apart :
        let s = dest_spot w h r x y in
        let t = dest_spot w h r x' y' in s.line ≡ t.line → s.col ≡ t.col → (x ≡ x') × (y ≡ y')
    unfolding dest_spot
    dest_apart p q = ground arith

dest_stride : (w h r x y x' y' : ℕ) → (dest_spot w h r x y).stride ≡ (dest_spot w h r x' y').stride
unfolding dest_spot
dest_stride w h r x y x' y' = ground arith

pub dest_injective :
    (w h r x y x' y' : ℕ)
    → x < w
    → y < h
    → x' < w
    → y' < h
    → index (dest_spot w h r x y) ≡ index (dest_spot w h r x' y')
    → (x ≡ x') × (y ≡ y')
dest_injective w h r x y x' y' hx hy hx' hy' e =
    let s = dest_spot w h r x y in
    let t = dest_spot w h r x' y' in
    let same = dest_stride w h r x y x' y' in
    let both =
      index_injective s.stride s.line s.col t.line t.col (dest_shape w h r x y hx hy).0
        (rw same (dest_shape w h r x' y' hx' hy').0)
        (e ∙ ap (λ n. t.line * n + t.col) (sym same)) in
    dest_apart w h r x y hx hy x' y' hx' hy' both.0 both.1
