-- ===== src/Beada/Drm/Coord.antt =====
-- drm/beada-drm-plane.c: where `rotate_coord` puts the pixels.
use packages.Base.{ℕ, ◌-◌, ◌*◌, ◌<◌, ◌≡◌, Bool, ◌==◌, ◌||◌, if◌then◌else◌, arith, sym, ◌∙◌}
use packages.Base.Int.{pos}
use packages.Base.Grid.{index_injective, index_bound}
use packages.Mpro.Rotation.Mode.{angle_bits, has_reflect_x}
use packages.Mpro.Rotation.Buffer.{dest_spot}
use packages.Mpro.Rotation.Place.{dest_apart}
use packages.Beada.Drm.Blit.{Blit, clamp, reflect, turn_coord, rotate_coord, shadow_index}

-- Whatever the pixel, the rotation and the dimensions, its index lies in the panel's buffer.
pub shadow_index_bound :
    (c : Blit) (sx sy : ℕ) → 0 < c.out_w → 0 < c.out_h → shadow_index c sx sy < c.out_h * c.out_w
unfolding shadow_index rotate_coord
shadow_index_bound c sx sy hw hh =
    index_bound c.out_w c.out_h (rotate_coord c sx sy).1 (rotate_coord c sx sy).0 (omega arith)
      (omega arith)

abbrev is_turned : Blit → Bool
is_turned c = angle_bits c.rot == 2 || angle_bits c.rot == 8

-- The picture has the dimensions of the panel as the rotation shows it.
pub record IsFitting (c : Blit) : Type 0 where
  pub across : c.src_w ≡ (if is_turned c then c.out_h else c.out_w)
  pub down : c.src_h ≡ (if is_turned c then c.out_w else c.out_h)

-- The switch turns as `mpro_drm__rotate_buffer` does.
turn_coord-dest :
    (c : Blit) (x y : ℕ)
    → x < c.src_w
    → y < c.src_h
    → let s = dest_spot c.src_w c.src_h c.rot x y in turn_coord c x y ≡ (pos s.col, pos s.line)
unfolding turn_coord dest_spot
turn_coord-dest c x y hx hy = ground arith

dest_inside :
    (c : Blit) (x y : ℕ)
    → IsFitting c
    → x < c.src_w
    → y < c.src_h
    → let s = dest_spot c.src_w c.src_h c.rot x y in (s.col < c.out_w) × (s.line < c.out_h)
unfolding dest_spot
dest_inside c x y fit hx hy = ground (arith, fit.across, fit.down)

-- The column of the panel, after the reflection.
abbrev mirrored : Blit → ℕ → ℕ
mirrored c col = if has_reflect_x c.rot then c.out_w - 1 - col else col

mirrored_lem :
    (c : Blit) (col line : ℕ)
    → col < c.out_w
    → line < c.out_h
    → (clamp (if has_reflect_x c.rot then reflect c.out_w (pos col) else pos col) c.out_w
        ≡ mirrored c col)
      × (clamp (pos line) c.out_h ≡ line)
mirrored_lem c col line h k = ground arith

-- The place on the panel: the spot to which `mpro_drm__rotate_buffer` turns the pixel, mirrored in the
-- panel's columns if the rotation has REFLECT_X.
pub rotate_coord-dest :
    (c : Blit) (x y : ℕ)
    → IsFitting c
    → x < c.src_w
    → y < c.src_h
    → let s = dest_spot c.src_w c.src_h c.rot x y in
      ((rotate_coord c x y).0 ≡ (if has_reflect_x c.rot then c.out_w - 1 - s.col else s.col))
      × ((rotate_coord c x y).1 ≡ s.line)
unfolding rotate_coord
rotate_coord-dest c x y fit hx hy =
    let s = dest_spot c.src_w c.src_h c.rot x y in
    let inside = dest_inside c x y fit hx hy in
    rw (turn_coord-dest c x y hx hy) (mirrored_lem c s.col s.line inside.0 inside.1)

mirrored_apart :
    (c : Blit) (a b : ℕ) → a < c.out_w → b < c.out_w → mirrored c a ≡ mirrored c b → a ≡ b
mirrored_apart c a b ha hb e = ground arith

rotate_coord_bound :
    (c : Blit) (x y : ℕ)
    → IsFitting c
    → x < c.src_w
    → y < c.src_h
    → (rotate_coord c x y).0 < c.out_w
rotate_coord_bound c x y fit hx hy =
    ground (arith, (rotate_coord-dest c x y fit hx hy).0, (dest_inside c x y fit hx hy).0)

pub shadow_index_injective :
    (c : Blit)
    → IsFitting c
    → (x y x' y' : ℕ) → x < c.src_w
    → y < c.src_h
    → x' < c.src_w
    → y' < c.src_h
    → shadow_index c x y ≡ shadow_index c x' y'
    → (x ≡ x') × (y ≡ y')
unfolding shadow_index
shadow_index_injective c fit x y x' y' hx hy hx' hy' e =
    let p = rotate_coord c x y in
    let q = rotate_coord c x' y' in
    let s = dest_spot c.src_w c.src_h c.rot x y in
    let t = dest_spot c.src_w c.src_h c.rot x' y' in
    let both =
      index_injective c.out_w p.1 p.0 q.1 q.0 (rotate_coord_bound c x y fit hx hy)
        (rotate_coord_bound c x' y' fit hx' hy') e in
    let at = rotate_coord-dest c x y fit hx hy in
    let at' = rotate_coord-dest c x' y' fit hx' hy' in
    dest_apart c.src_w c.src_h c.rot x y hx hy x' y' hx' hy' (sym at.1 ∙ both.0 ∙ at'.1) (
      mirrored_apart c s.col t.col (dest_inside c x y fit hx hy).0
        (dest_inside c x' y' fit hx' hy').0 (sym at.0 ∙ both.1 ∙ at'.0))
