-- ===== src/Ax206/Usb.antt =====
-- ax206-usb.c: SCSI commands over USB.
use packages.Base.{
  ℕ, ◌+◌, ◌*◌, ◌<◌, ◌≡◌, refl, Bool, true, List, ◌∷◌, ◌++◌, length, get_or, not, ◌&&◌, ◌||◌, ◌==◌,
  if◌then◌else◌, arith,
}
use packages.Base.Errno.{Ret, eio, enomem, enodev}
use packages.Mpro.Pipeline.Submit.{le32}
use packages.Ax206.Screen.{blit_command}

-- What the kernel and the device answer to one command: the allocations, the three transfers, and the
-- status block that arrives last.
pub record Phases : Type 0 where
  pub alloc_ok : Bool
  pub cbw : Ret
  pub payload : Ret
  pub csw : Ret
  pub signature : ℕ
  pub status : ℕ

-- `struct ax206_cbw` for a command block of 16 bytes.
unfoldable pub command_wrapper : Bool → ℕ → List ℕ → List ℕ
command_wrapper dir_in len cmd =
    le32 0x43425355
    ++ (le32 0xdeadbeef ++ (le32 len ++ (if dir_in then 0x80 else 0) ∷ 0 ∷ 16 ∷ cmd))

-- `ax206_usb_cmd`: an errno, or the status of the device; `has_data` says that the buffer is there.
unfoldable pub usb_cmd : Phases → Bool → ℕ → Ret
usb_cmd p has_data len =
    if not p.alloc_ok
    then enomem
    else if not (p.cbw == 0)
    then p.cbw
    else if (has_data && not (len == 0)) && not (p.payload == 0)
    then p.payload
    else if not (p.csw == 0)
    then p.csw
    else if not (p.signature == 0x53425355)
    then eio
    else p.status

-- `ax206_usb_query_dims`: the result, the width and the height; `buf_ok` is the allocation of the
-- buffer, `reply` its bytes after the command.
unfoldable pub query_dims : Bool → Phases → List ℕ → ℕ × ℕ → Ret × (ℕ × ℕ)
query_dims buf_ok p reply old =
    let ret = usb_cmd p true 5 in
    let w = get_or reply 0 0 + 256 * get_or reply 1 0 in
    let h = get_or reply 2 0 + 256 * get_or reply 3 0 in
    if not buf_ok
    then (enomem, old)
    else if not (ret == 0)
    then (ret, old)
    else if w == 0 || h == 0
    then (enodev, (w, h))
    else (0, (w, h))

-- A number of two bytes, low byte first.
abbrev pub word : List ℕ → ℕ → ℕ
word cmd at = get_or cmd at 0 + 256 * get_or cmd (at + 1) 0

-- The blit command has 16 bytes, and names the first and the last column and line of a rectangle that
-- is not empty.
pub blit_command-region :
    (x0 y0 x1 y1 : ℕ)
    → x0 < x1
    → x1 < 65536
    → y0 < y1
    → y1 < 65536
    → let cmd = blit_command x0 y0 x1 y1 in
      (length cmd ≡ 16)
      × (word cmd 7 ≡ x0)
      × (word cmd 9 ≡ y0)
      × (word cmd 11 + 1 ≡ x1)
      × (word cmd 13 + 1 ≡ y1)
unfolding blit_command
blit_command-region x0 y0 x1 y1 hx wx hy wy =
    (refl, omega arith, omega arith, omega arith, omega arith)
