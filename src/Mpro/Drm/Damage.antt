-- ===== src/Mpro/Drm/Damage.antt =====
-- drm/mpro_drm_pipe.c: what of a damaged rectangle reaches the pipeline.
use packages.Base.{
  ℕ, zero, suc, ◌+◌, ◌*◌, ◌≤◌, ◌<◌, ◌≡◌, refl, ◌∙◌, true, false, Option, none, some, List, [], ◌∷◌,
  ◌++◌, arith, length, get_or, take, drop, length-take, length-drop, ap, sym, ◌&&◌, ◌==◌,
}
use packages.Base.Errno.{Ret, einval}
use packages.Mpro.Model.{ModelInfo}
use packages.Mpro.Pipeline.Xfer.{Pipe}
use packages.Mpro.Pipeline.Alloc.{Memory, Compressor}
use packages.Mpro.Pipeline.Frame.{send_partial_frame, send_checked, send_region}
use packages.Mpro.Drm.Update.{Drm, copy_rows, update_region, request_update}

get_or-append_left :
    (xs ys : List ℕ) (k : ℕ) → k < length xs → get_or (xs ++ ys) k 0 ≡ get_or xs k 0
get_or-append_left [] ys k h = elim h [ ]
get_or-append_left (x ∷ xs) ys zero h = refl
get_or-append_left (x ∷ xs) ys (suc k) h = get_or-append_left xs ys k (omega arith)

next : (n k : ℕ) → suc n + k ≡ suc (n + k)
next n k = omega arith

get_or-append_right : (xs ys : List ℕ) (k : ℕ) → get_or (xs ++ ys) (length xs + k) 0 ≡ get_or ys k 0
get_or-append_right [] ys k = ap (λ i. get_or ys i 0) (omega arith)
get_or-append_right (x ∷ xs) ys k =
    ap (λ i. get_or (x ∷ (xs ++ ys)) i 0) (next (length xs) k) ∙ get_or-append_right xs ys k

get_or-take : (n k : ℕ) (xs : List ℕ) → k < n → get_or (take n xs) k 0 ≡ get_or xs k 0
get_or-take zero k xs h = elim h [ ]
get_or-take (suc n) k [] h = refl
get_or-take (suc n) zero (x ∷ xs) h = refl
get_or-take (suc n) (suc k) (x ∷ xs) h = get_or-take n k xs (omega arith)

get_or-drop : (n k : ℕ) (xs : List ℕ) → get_or (drop n xs) k 0 ≡ get_or xs (n + k) 0
get_or-drop zero k xs = ap (λ i. get_or xs i 0) (omega arith)
get_or-drop (suc n) k [] = refl
get_or-drop (suc n) k (x ∷ xs) = get_or-drop n k xs ∙ ap (λ i. get_or (x ∷ xs) i 0) (sym (next n k))

length-row :
    (shadow : List ℕ) (pitch start row_bytes y n : ℕ)
    → start + row_bytes ≤ pitch
    → (y + suc n) * pitch ≤ length shadow
    → length (take row_bytes (drop (y * pitch + start) shadow)) ≡ row_bytes
length-row shadow pitch start row_bytes y n fit l = grind (
  arith,
  length-take row_bytes (drop (y * pitch + start) shadow),
  length-drop (y * pitch + start) shadow,
)

-- The bounce buffer holds the rectangle, row after row: its byte `k` of row `i` is the byte of the
-- shadow buffer at row `y + i`, `k` bytes from the rectangle's left edge.
pub copy_rows-get :
    (shadow : List ℕ) (pitch start row_bytes y n i k : ℕ)
    → start + row_bytes ≤ pitch
    → (y + n) * pitch ≤ length shadow
    → i < n
    → k < row_bytes
    → get_or (copy_rows shadow pitch start row_bytes y n) (i * row_bytes + k) 0
      ≡ get_or shadow ((y + i) * pitch + start + k) 0
unfolding copy_rows
copy_rows-get shadow pitch start row_bytes y zero i k fit l hi hk = absurd (omega arith)
copy_rows-get shadow pitch start row_bytes y (suc n) zero k fit l hi hk =
    let row = take row_bytes (drop (y * pitch + start) shadow) in
    ap (λ i. get_or (row ++ copy_rows shadow pitch start row_bytes (y + 1) n) i 0) (omega arith)
    ∙ get_or-append_left row (copy_rows shadow pitch start row_bytes (y + 1) n) k
        (omega (arith, length-row shadow pitch start row_bytes y n fit l))
    ∙ get_or-take row_bytes k (drop (y * pitch + start) shadow) hk
    ∙ get_or-drop (y * pitch + start) k shadow
    ∙ ap (λ i. get_or shadow i 0) (omega arith)
copy_rows-get shadow pitch start row_bytes y (suc n) (suc i) k fit l hi hk =
    let row = take row_bytes (drop (y * pitch + start) shadow) in
    ap (λ i. get_or (row ++ copy_rows shadow pitch start row_bytes (y + 1) n) i 0)
      (omega (arith, length-row shadow pitch start row_bytes y n fit l))
    ∙ get_or-append_right row (copy_rows shadow pitch start row_bytes (y + 1) n) (i * row_bytes + k)
    ∙ copy_rows-get shadow pitch start row_bytes (y + 1) n i k fit (omega arith) (omega arith) hk
    ∙ ap (λ i. get_or shadow i 0) (omega arith)

send_checked-low :
    (lz4 : Compressor) (ret : Ret) (m : Memory) (o : Option ModelInfo) (model : ModelInfo)
    (frame : List ℕ) (x y w h : ℕ) (p : Pipe)
    → o ≡ some model
    → model.height ≤ y + h
    → send_checked lz4 ret m o (some frame) x y w h p ≡ (einval, p)
unfolding send_checked send_region
send_checked-low lz4 ret m none model frame x y w h p e low = cc
send_checked-low lz4 ret m (some n) model frame x y w h p e low = ground arith

-- A damaged rectangle that reaches the last line of the panel and is not the whole panel is refused:
-- the update returns -EINVAL, no transfer is made, and the panel keeps its old picture.
pub request_update-last_line :
    (lz4 : Compressor) (ret : Ret) (m : Memory) (d : Drm) (model : ModelInfo) (p : Pipe)
    (x y w h : ℕ)
    → d.blanked ≡ false
    → d.disable_partial ≡ false
    → p.model ≡ some model
    → model.height ≡ d.height
    → (x == 0 && (y == 0 && (w == d.width && h == d.height))) ≡ false
    → y + h ≡ d.height
    → request_update lz4 ret m true d x y w h false p ≡ (einval, p)
unfolding request_update update_region send_partial_frame
request_update-last_line lz4 ret m d model p x y w h shown partial has same part last = ground (
  arith,
  send_checked-low lz4 ret m p.model model (drop (y * (d.width * 2)) d.shadow) x y w h p,
  send_checked-low lz4 ret m p.model model (copy_rows d.shadow (d.width * 2) (x * 2) (w * 2) y h) x
      y w h p,
)
