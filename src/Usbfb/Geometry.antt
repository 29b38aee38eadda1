-- ===== src/Usbfb/Geometry.antt =====
-- usbfb.c: the dimensions of the screen and the frame command that the probe sets up.
use packages.Base.{
  ℕ, ◌+◌, ◌-◌, ◌*◌, ◌/◌, ◌%◌, ◌^◌, ◌≤◌, ◌<◌, ◌≡◌, List, [], ◌∷◌, ◌==◌, get_or, if◌then◌else◌, arith,
}

-- The fields `width`, `height` and `margin` of `struct usbfb_info`.
pub record Geometry : Type 0 where
  pub width : ℕ
  pub height : ℕ
  pub margin : ℕ

-- The chain of tests of `usbfb_probe` on `screen_info`; the names of the models are only logged.
unfoldable pub choose_geometry : ℕ → Geometry
choose_geometry screen_info =
    if screen_info == 5
    then record { width = 480; height = 854; margin = 320 }
    else if screen_info == 7
    then record { width = 800; height = 480; margin = 0 }
    else record { width = 480; height = 800; margin = 0 }

-- `par->screen_size`: USBFB_BPP is 16.
unfoldable pub screen_size : Geometry → ℕ
screen_size g = g.height * g.width * 16 / 8 + g.margin

-- `par->cmd`, the command that announces a frame; the first and last byte are 0.
unfoldable pub frame_command : ℕ → List ℕ
frame_command size = 0 ∷ 0x2c ∷ size % 256 ∷ size / 2 ^ 8 % 256 ∷ size / 2 ^ 16 % 256 ∷ 0 ∷ []

-- `vmem_size`, with pages of `page` bytes: PAGE_ALIGN.
unfoldable pub vmem_size : ℕ → ℕ → ℕ
vmem_size page size = (size + (page - 1)) / page * page

-- The four bytes of `cmd` from the second one on, as an `int` of a little-endian host.
unfoldable pub info_code : List ℕ → ℕ
info_code cmd =
    get_or cmd 1 0 + 2 ^ 8 * get_or cmd 2 0 + 2 ^ 16 * get_or cmd 3 0 + 2 ^ 24 * get_or cmd 4 0

-- What a reader of the frame command finds as the size.
abbrev pub announced : List ℕ → ℕ
announced cmd = get_or cmd 2 0 + 2 ^ 8 * get_or cmd 3 0 + 2 ^ 16 * get_or cmd 4 0

-- For every code that a screen may answer: the three size bytes of the frame command give the number
-- of bytes that are sent, which are all lines and the margin, and the buffer holds them, in whole
-- pages and with less than a page to spare.
pub frame_command-size :
    (code page : ℕ)
    → 0 < page
    → let g = choose_geometry code in
      let size = screen_size g in
      (announced (frame_command size) ≡ size)
      × (size ≡ g.width * 2 * g.height + g.margin)
      × (size ≤ vmem_size page size)
      × (vmem_size page size < size + page)
unfolding choose_geometry screen_size frame_command vmem_size
frame_command-size code page h = ground arith
