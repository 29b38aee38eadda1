-- ===== src/Mpro/Drm/Safe.antt =====
-- drm/mpro_drm_color.c: which copies stay inside their buffers.
use packages.Base.{
  ℕ, ◌+◌, ◌-◌, ◌*◌, ◌≤◌, ◌<◌, ◌≡◌, ◌≢◌, Bool, true, ◌⊎◌, arith, ap, length, ◌==◌, not, ◌&&◌, ◌||◌,
  ltb, if-cases,
}
use packages.Mpro.Rotation.Mode.{rotate_0}
use packages.Mpro.Drm.Copy.{
  Framebuffer, Clip, cpp, Source, Target, fault, copy_frame, copy_straight, copy_rotated, supported,
  clip_valid, rows_end,
}

mul_mono : (a b p : ℕ) → a ≤ b → a * p ≤ b * p
mul_mono a b p h = grind arith

mul_lines : (a k p : ℕ) → (a + k + 1) * p ≡ a * p + k * p + p
mul_lines a k p = grind arith

-- Lines between y1 and y2 of a buffer of `lines` lines end inside it.
pub rows_fit :
    (pitch start row_bytes y1 y2 lines : ℕ)
    → y1 < y2
    → y2 ≤ lines
    → start + row_bytes ≤ pitch
    → y1 * pitch + start + (y2 - y1 - 1) * pitch + row_bytes ≤ lines * pitch
rows_fit pitch start row_bytes y1 y2 lines h k fit =
    let n = y2 - y1 - 1 in
    omega (arith, mul_mono (y1 + n + 1) lines pitch (omega arith), mul_lines y1 n pitch)

mul_add : (a b n : ℕ) → (a + b) * n ≡ a * n + b * n
mul_add a b n = grind arith

swap_sides : (w h : ℕ) → w * h * 2 ≡ h * (w * 2)
swap_sides w h = grind arith

temp_lines : (w h : ℕ) → 0 < h → (h - 1) * (w * 2) + w * 2 ≡ w * h * 2
temp_lines w h some_line =
    let e : h - 1 + 1 ≡ h = omega arith in
    omega (arith, mul_add (h - 1) 1 (w * 2), ap (λ (k : ℕ). k * (w * 2)) e, swap_sides w h)

part_core : (w d k : ℕ) → w * (k + 2) * 2 < (k + 1) * ((w + d + 1) * 2) + w * 2
part_core w d k = grind arith

part_lt : (w width h : ℕ) → w < width → 2 ≤ h → w * h * 2 < (h - 1) * (width * 2) + w * 2
part_lt w width h lt two =
    let eh : h ≡ (h - 2) + 2 = omega arith in
    let ew : width ≡ w + (width - w - 1) + 1 = omega arith in
    let eh' : h - 1 ≡ (h - 2) + 1 = omega arith in
    let core = part_core w (width - w - 1) (h - 2) in
    omega (
      arith,
      core,
      ap (λ (t : ℕ). w * t) eh,
      ap (λ (t : ℕ). (h - 1) * (t * 2)) ew,
      ap (λ (t : ℕ). t * ((w + (width - w - 1) + 1) * 2)) eh',
    )

-- A framebuffer whose lines are inside its memory.
pub record IsWhole (fb : Framebuffer) : Type 0 where
  pub line_fits : fb.width * cpp fb.format ≤ fb.pitch
  pub lines_fit : fb.height * fb.pitch ≤ length fb.bytes

-- A shadow buffer that holds a picture of the child's dimensions.
abbrev pub HoldsPicture : Target → Type 0
HoldsPicture t = t.height * (t.width * 2) ≤ length t.shadow

module _ (s : Source) (t : Target) (c : Clip) (valid_x : c.x1 < c.x2) (valid_y : c.y1 < c.y2) where
  source_fits :
      IsWhole s.fb
      → c.x2 ≤ s.fb.width
      → c.y2 ≤ s.fb.height
      → rows_end
          (c.y1 * s.fb.pitch + c.x1 * cpp s.fb.format)
          s.fb.pitch
          ((c.x2 - c.x1) * cpp s.fb.format)
          (c.y2 - c.y1)
        ≤ length s.fb.bytes
  source_fits whole x y =
      let n = cpp s.fb.format in
      let sum : c.x1 + (c.x2 - c.x1) ≡ c.x2 = omega arith in
      let row : c.x1 * n + (c.x2 - c.x1) * n ≤ s.fb.pitch = omega (
        arith,
        whole.line_fits,
        mul_mono c.x2 s.fb.width n x,
        mul_add c.x1 (c.x2 - c.x1) n,
        ap (λ (k : ℕ). k * n) sum,
      ) in
      omega (
        arith,
        whole.lines_fit,
        rows_fit s.fb.pitch (c.x1 * n) ((c.x2 - c.x1) * n) c.y1 c.y2 s.fb.height valid_y y row,
      )

  shadow_fits :
      HoldsPicture t
      → c.x2 ≤ t.width
      → c.y2 ≤ t.height
      → rows_end (c.y1 * (t.width * 2) + c.x1 * 2) (t.width * 2) ((c.x2 - c.x1) * 2) (c.y2 - c.y1)
        ≤ length t.shadow
  shadow_fits holds x y = omega (
    arith,
    holds,
    rows_fit (t.width * 2) (c.x1 * 2) ((c.x2 - c.x1) * 2) c.y1 c.y2 t.height valid_y y
        (omega arith),
  )

  -- The buffer of a rotation has lines as long as the shadow buffer's.
  temp_fits :
      c.x2 - c.x1 ≡ t.width
      → rows_end 0 (t.width * 2) ((c.x2 - c.x1) * 2) (c.y2 - c.y1)
        ≤ (c.x2 - c.x1) * (c.y2 - c.y1) * 2
  temp_fits full =
      let w = c.x2 - c.x1 in
      let h = c.y2 - c.y1 in
      omega (arith, temp_lines w h (omega arith), ap (λ (k : ℕ). (h - 1) * (k * 2)) full)

  turned_fits :
      HoldsPicture t
      → c.x2 - c.x1 ≡ t.width
      → c.x2 ≤ t.width
      → c.y2 ≤ t.height
      → c.y1 * (t.width * 2) + c.x1 * 2 + (c.x2 - c.x1) * (c.y2 - c.y1) * 2 ≤ length t.shadow
  turned_fits holds full x y =
      let w = c.x2 - c.x1 in
      let h = c.y2 - c.y1 in
      omega (
        arith,
        holds,
        mul_mono (c.y1 + h) t.height (t.width * 2) (omega arith),
        mul_add c.y1 h (t.width * 2),
        swap_sides w h,
        ap (λ (k : ℕ). h * (k * 2)) full,
      )

lt_false : (a b : ℕ) → b ≤ a → ltb a b ≡ true → ⊥
lt_false a b h e = ground (arith, e)

rotated_fits :
    (temp_ok : Bool) (s : Source) (t : Target) (c : Clip)
    → c.x1 < c.x2
    → c.y1 < c.y2
    → HoldsPicture t
    → c.x2 - c.x1 ≡ t.width
    → c.x2 ≤ t.width
    → c.y2 ≤ t.height
    → copy_rotated temp_ok s t
        (c.y1 * s.fb.pitch + c.x1 * cpp s.fb.format)
        (c.y1 * (t.width * 2) + c.x1 * 2)
        (c.x2 - c.x1)
        (c.y2 - c.y1)
      ≢ fault
unfolding copy_rotated
rotated_fits temp_ok s t c vx vy holds full x y =
    if-cases (λ r. r ≢ fault) (not temp_ok) (λ none. cc)
      (λ some.
        if-cases (λ r. r ≢ fault) (ltb ((c.x2 - c.x1) * (c.y2 - c.y1) * 2) _)
          (λ outside. absurd (lt_false _ _ (temp_fits s t c vx vy full) outside))
          (λ inside.
            if-cases (λ r. r ≢ fault) (ltb (length t.shadow) _)
              (λ outside. absurd (lt_false _ _ (turned_fits s t c vx vy holds full x y) outside))
              (λ ok. cc)))

full_width :
    (t : Target) (c : Clip)
    → (t.effective ≡ rotate_0) ⊎ (c.x2 - c.x1 ≡ t.width)
    → not (t.effective == rotate_0) ≡ true
    → c.x2 - c.x1 ≡ t.width
full_width t c h turns = ground (arith, h, turns)

module _ (s : Source) (t : Target) (c : Clip) (vx : c.x1 < c.x2) (vy : c.y1 < c.y2) where
  straight_fits :
      HoldsPicture t
      → c.x2 ≤ t.width
      → c.y2 ≤ t.height
      → copy_straight s t
          (c.y1 * s.fb.pitch + c.x1 * cpp s.fb.format)
          (c.y1 * (t.width * 2) + c.x1 * 2)
          (c.x2 - c.x1)
          (c.y2 - c.y1)
        ≢ fault
  unfolding copy_straight
  straight_fits holds x y =
      if-cases (λ r. r ≢ fault) (ltb (length t.shadow) _)
        (λ outside. absurd (lt_false _ _ (shadow_fits s t c vx vy holds x y) outside)) (λ ok. cc)

-- A copy of a rectangle inside the framebuffer reads and writes inside its buffers, where the memory of
-- the framebuffer holds its lines, the shadow buffer holds a picture, and the picture is not rotated or
-- the rectangle is as wide as the picture.
pub copy_frame-ne-fault :
    (temp_ok : Bool) (s : Source) (t : Target) (c : Clip)
    → IsWhole s.fb
    → HoldsPicture t
    → c.x2 ≤ s.fb.width
    → c.y2 ≤ s.fb.height
    → (t.effective ≡ rotate_0) ⊎ (c.x2 - c.x1 ≡ t.width)
    → copy_frame temp_ok s t c ≢ fault
unfolding copy_frame
copy_frame-ne-fault temp_ok s t c whole holds x y straight =
    if-cases (λ r. r ≢ fault) (ltb t.width c.x2 || ltb t.height c.y2) (λ out. cc)
      (λ inside.
        if-cases (λ r. r ≢ fault) (s.fb.pitch == 0 || not s.fb.mapped) (λ bad. cc)
          (λ good.
            if-cases (λ r. r ≢ fault) (not (clip_valid c)) (λ empty. cc)
              (λ valid.
                let vx : c.x1 < c.x2 = ground (arith, valid) in
                let vy : c.y1 < c.y2 = ground (arith, valid) in
                if-cases (λ r. r ≢ fault) (not (supported s.fb.format)) (λ unknown. cc)
                  (λ known.
                    if-cases (λ r. r ≢ fault) (not (t.effective == rotate_0) && not temp_ok)
                      (λ no_temp. cc)
                      (λ temp.
                        if-cases (λ r. r ≢ fault)
                          (ltb (length s.fb.bytes) (
                            rows_end (c.y1 * s.fb.pitch + c.x1 * cpp s.fb.format) s.fb.pitch
                              ((c.x2 - c.x1) * cpp s.fb.format) (c.y2 - c.y1)))
                          (λ outside.
                            absurd (lt_false _ _ (source_fits s t c vx vy whole x y) outside))
                          (λ read.
                            if-cases (λ r. r ≢ fault) (not (t.effective == rotate_0))
                              (λ turns.
                                rotated_fits temp_ok s t c vx vy holds
                                  (full_width t c straight turns) (ground (arith, inside))
                                  (ground (arith, inside)))
                              (λ same.
                                straight_fits s t c vx vy holds (ground (arith, inside))
                                  (ground (arith, inside)))))))))

-- A copy that rotates a rectangle narrower than the picture, of two lines or more, writes past the end
-- of the buffer that it allocates.
pub copy_frame-overflow :
    (s : Source) (t : Target) (c : Clip)
    → s.fb.mapped ≡ true
    → s.fb.pitch ≢ 0
    → supported s.fb.format ≡ true
    → t.effective ≢ rotate_0
    → c.x1 < c.x2
    → c.y1 + 2 ≤ c.y2
    → c.x2 ≤ t.width
    → c.y2 ≤ t.height
    → c.x2 - c.x1 < t.width
    → copy_frame true s t c ≡ fault
unfolding copy_frame copy_rotated
copy_frame-overflow s t c mapped pitch known turns vx vy x y narrow =
    ground (arith, mapped, known, part_lt (c.x2 - c.x1) t.width (c.y2 - c.y1) narrow (omega arith))
