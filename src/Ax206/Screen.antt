-- ===== src/Ax206/Screen.antt =====
-- drm/ax206-drm-rotation.c and ax206-usb.c: the state of the DRM child, its rotation, and the blit command.
use packages.Base.{ℕ, ◌+◌, ◌/◌, ◌%◌, Bool, List, [], ◌∷◌, ◌++◌, ◌||◌, ◌==◌, ltb, if◌then◌else◌}
use packages.Base.Int.{ℤ, pos, sub_ℕ}

-- A picture of 16-bit pixels by column and line.
abbrev pub Picture : Type 0
Picture = ℕ → ℕ → ℕ

-- The fields of `struct ax206_drm_dev` and `struct ax206_dev` that the updates use; `width` and `height`
-- are the panel's. `blit_active` says that the worker is queued or runs.
pub record Display : Type 0 where
  pub width : ℕ
  pub height : ℕ
  pub rotation : ℕ
  pub shadow : Picture
  pub blit_dirty : Bool
  pub dirty_x0 : ℕ
  pub dirty_y0 : ℕ
  pub dirty_x1 : ℕ
  pub dirty_y1 : ℕ
  pub blit_active : Bool
  pub idle_active : Bool
  pub connected : Bool

-- `lwidth` and `lheight`, as `ax206_drm_set_rotation` sets them.
unfoldable pub logical_dims : Display → ℕ × ℕ
logical_dims d =
    if d.rotation == 1 || (d.rotation == 3 || (d.rotation == 5 || d.rotation == 7))
    then (d.height, d.width)
    else (d.width, d.height)

-- `ax206_rotate_pixel`.
unfoldable pub rotate_pixel : Display → ℕ → ℕ → ℤ × ℤ
rotate_pixel d lx ly =
    let w = d.width in
    let h = d.height in
    if d.rotation == 1
    then (sub_ℕ h (ly + 1), pos lx)
    else if d.rotation == 2
    then (sub_ℕ w (lx + 1), sub_ℕ h (ly + 1))
    else if d.rotation == 3
    then (pos ly, sub_ℕ w (lx + 1))
    else if d.rotation == 4
    then (sub_ℕ w (lx + 1), pos ly)
    else if d.rotation == 5
    then (pos ly, pos lx)
    else if d.rotation == 6
    then (pos lx, sub_ℕ h (ly + 1))
    else if d.rotation == 7
    then (sub_ℕ h (ly + 1), sub_ℕ w (lx + 1))
    else (pos lx, pos ly)

-- The two bytes of a number, low byte first.
abbrev bytes16 : ℕ → List ℕ
bytes16 n = n % 256 ∷ n / 256 % 256 ∷ []

-- The command of `ax206_usb_blit`, for the columns from x0 to x1 and the lines from y0 to y1, the upper
-- ends left out; AX206_CMD_BLIT is 0x12. A side that is 0 would wrap around.
unfoldable pub blit_command : ℕ → ℕ → ℕ → ℕ → List ℕ
blit_command x0 y0 x1 y1 =
    0xcd
    ∷ 0
    ∷ 0
    ∷ 0
    ∷ 0
    ∷ 0x06
    ∷ 0x12
    ∷ (bytes16 x0
        ++ (bytes16 y0
            ++ (bytes16 ((x1 + 65535) % 65536) ++ (bytes16 ((y1 + 65535) % 65536) ++ 0 ∷ []))))

-- The command of `ax206_usb_set_backlight`, for a level between 0 and 7.
unfoldable pub backlight_block : ℕ → List ℕ
backlight_block value =
    let level = if ltb 7 value then 7 else value in
    0xcd ∷ 0 ∷ 0 ∷ 0 ∷ 0 ∷ 0x06 ∷ 0x01 ∷ 0x01 ∷ 0 ∷ (bytes16 level ++ 0 ∷ 0 ∷ 0 ∷ 0 ∷ 0 ∷ [])
