-- ===== src/Beada/Drm/Picture.antt =====
-- drm/beada-drm-plane.c: what `beada_blit_rect` leaves in the panel's buffer.
use packages.Base.{
  ℕ, zero, suc, ◌+◌, ◌-◌, ◌*◌, ◌≤◌, ◌<◌, ◌≡◌, ◌⊎◌, refl, sym, ap, ◌∙◌, true, List, get_or, set,
  length, arith,
}
use packages.Base.Grid.{paint_row, paint_rows, length-paint_rows, rows_write}
use packages.Mpro.Rotation.Mode.{angle_bits, has_reflect_x}
use packages.Mpro.Rotation.Buffer.{dest_spot}
use packages.Beada.Drm.Blit.{
  Blit, Rect, rotate_coord, shadow_index, pixel_bytes, convert_pixel, blit_row, blit_rows,
  blit_rect,
}
use packages.Beada.Drm.Coord.{
  IsFitting, shadow_index_bound, shadow_index_injective, rotate_coord-dest,
}
use packages.Beada.Drm.Colour.{
  place, start_of, AreBytes, IsByteTable, HasColour, shadow_index-place, convert_pixel-HasColour,
}

-- Where a pixel of the framebuffer lies, and its colour for the panel.
abbrev pixel_at : Blit → ℕ → ℕ → ℕ
pixel_at c sx sy = convert_pixel c (sy * c.pitch + sx * pixel_bytes c)

blit_row_lem :
    (c : Blit) (n sx sy at : ℕ) (shadow : List ℕ)
    → at ≡ sy * c.pitch + sx * pixel_bytes c
    → blit_row c n sx sy at shadow ≡ paint_row (shadow_index c) (pixel_at c) n sx sy shadow
unfolding blit_row paint_row
blit_row_lem c zero sx sy at shadow e = refl
blit_row_lem c (suc n) sx sy at shadow e =
    blit_row_lem c n (sx + 1) sy (at + pixel_bytes c)
      (set shadow (shadow_index c sx sy) (convert_pixel c at)) (grind (arith, e))
    ∙ ap
        (λ p.
          paint_row (shadow_index c) (pixel_at c) n (sx + 1) sy
            (set shadow (shadow_index c sx sy) (convert_pixel c p)))
        e

blit_rows_lem :
    (c : Blit) (n m x y : ℕ) (shadow : List ℕ)
    → blit_rows c n m x y shadow ≡ paint_rows (shadow_index c) (pixel_at c) n m x y shadow
unfolding blit_rows paint_rows
blit_rows_lem c zero m x y shadow = refl
blit_rows_lem c (suc n) m x y shadow =
    blit_rows_lem c n m x (y + 1) (blit_row c m x y (y * c.pitch + x * pixel_bytes c) shadow)
    ∙ ap (paint_rows (shadow_index c) (pixel_at c) n m x (y + 1))
        (blit_row_lem c m x y (y * c.pitch + x * pixel_bytes c) shadow refl)

pub length-blit_rect :
    (c : Blit) (clip : Rect) (shadow : List ℕ) → length (blit_rect c clip shadow) ≡ length shadow
unfolding blit_rect
length-blit_rect c clip shadow =
    let n = clip.y2 - clip.y1 in
    let m = clip.x2 - clip.x1 in
    ap length (blit_rows_lem c n m clip.x1 clip.y1 shadow)
    ∙ length-paint_rows (shadow_index c) (pixel_at c) n m clip.x1 clip.y1 shadow

-- Each pixel of the rectangle is written at the code's index with the code's colour.
blit_rect-writes :
    (c : Blit) (clip : Rect) (x y : ℕ) (shadow : List ℕ)
    → IsFitting c
    → 0 < c.out_w
    → 0 < c.out_h
    → c.out_h * c.out_w ≤ length shadow
    → clip.x1 ≤ x
    → x < clip.x2
    → clip.x2 ≤ c.src_w
    → clip.y1 ≤ y
    → y < clip.y2
    → clip.y2 ≤ c.src_h
    → (get_or (blit_rect c clip shadow) (shadow_index c x y) 0 ≡ pixel_at c x y)
      × (length (blit_rect c clip shadow) ≡ length shadow)
unfolding blit_rect
blit_rect-writes c clip x y shadow fit hw hh size lx hx wide ly hy high =
    let n = clip.y2 - clip.y1 in
    let m = clip.x2 - clip.x1 in
    rw (blit_rows_lem c n m clip.x1 clip.y1 shadow) (
      rows_write (shadow_index c) (pixel_at c) c.src_w c.src_h (c.out_h * c.out_w)
          (shadow_index_injective c fit) (λ a b p q. shadow_index_bound c a b hw hh) n m clip.x1
          clip.y1 x y shadow size (omega arith) (omega arith) lx (omega arith) ly (omega arith),
      length-paint_rows (shadow_index c) (pixel_at c) n m clip.x1 clip.y1 shadow,
    )

-- Blitting a rectangle of a picture that fits the panel, at any rotation, from a framebuffer of bytes and
-- under gamma tables of bytes: each pixel of the rectangle is found in the panel's buffer, line by line, at
-- its column and line after the turn by 90, 180 or 270 degrees and the mirroring of the panel's columns;
-- the three fields of that entry hold the upper bits of red, green and blue of the framebuffer's pixel
-- under the gamma, or of blue, green and red in BGR order; and the buffer keeps its length.
pub blit_rect-places :
    (c : Blit) (clip : Rect) (x y : ℕ) (shadow : List ℕ)
    → IsFitting c
    → AreBytes c.bytes
    → IsByteTable c.gamma
    → 0 < c.out_w
    → 0 < c.out_h
    → c.out_h * c.out_w ≤ length shadow
    → clip.x1 ≤ x
    → x < clip.x2
    → clip.x2 ≤ c.src_w
    → clip.y1 ≤ y
    → y < clip.y2
    → clip.y2 ≤ c.src_h
    → (HasColour c.bgr c.gamma c.is_xrgb c.bytes
        (start_of c.is_xrgb c.pitch x y)
        (get_or (blit_rect c clip shadow) (place c.rot c.out_w c.out_h x y) 0))
      × (length (blit_rect c clip shadow) ≡ length shadow)
blit_rect-places c clip x y shadow fit bytes table hw hh size lx hx wide ly hy high =
    let written = blit_rect-writes c clip x y shadow fit hw hh size lx hx wide ly hy high in
    let at = shadow_index-place c x y fit (omega arith) (omega arith) in
    let px = get_or (blit_rect c clip shadow) (place c.rot c.out_w c.out_h x y) 0 in
    let e : px ≡ pixel_at c x y =
      ap (λ i. get_or (blit_rect c clip shadow) i 0) (sym at) ∙ written.0 in
    (rw e (convert_pixel-HasColour c (start_of c.is_xrgb c.pitch x y) bytes table), written.1)

-- At 90 and 270 degrees with REFLECT_X, the pixel (x, y) is shown on the panel at the opposite point
-- of where `mpro_drm__rotate_buffer` shows it for the same rotation: mirrored in both axes.
pub rotate_coord-opposite :
    (c : Blit) (x y : ℕ)
    → IsFitting c
    → (angle_bits c.rot ≡ 2) ⊎ (angle_bits c.rot ≡ 8)
    → has_reflect_x c.rot ≡ true
    → x < c.src_w
    → y < c.src_h
    → let s = dest_spot c.src_w c.src_h c.rot (c.src_w - 1 - x) y in
      ((rotate_coord c x y).0 ≡ c.out_w - 1 - s.col)
      × ((rotate_coord c x y).1 ≡ c.out_h - 1 - s.line)
unfolding dest_spot
rotate_coord-opposite c x y fit turned mirrored hx hy =
    let at = rotate_coord-dest c x y fit hx hy in ground (arith, at, fit.across, fit.down)
