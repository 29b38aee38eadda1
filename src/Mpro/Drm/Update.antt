-- ===== src/Mpro/Drm/Update.antt =====
-- drm/mpro_drm_pipe.c: `mpro_drm__request_update`, from a damaged rectangle to the pipeline.
use packages.Base.{
  ℕ, zero, suc, ◌+◌, ◌*◌, Bool, some, List, [], ◌++◌, not, ◌&&◌, ◌==◌, take, drop, if◌then◌else◌,
}
use packages.Base.Errno.{Ret, enomem}
use packages.Mpro.Pipeline.Xfer.{Pipe}
use packages.Mpro.Pipeline.Alloc.{Memory, Compressor}
use packages.Mpro.Pipeline.Frame.{send_full_frame, send_partial_frame}

-- The fields of `struct mpro_drm` that the update reads.
pub record Drm : Type 0 where
  pub width : ℕ
  pub height : ℕ
  pub shadow : List ℕ
  pub shadow_size : ℕ
  pub blanked : Bool
  pub disable_partial : Bool

-- `n` rows of `row_bytes` bytes each, from row `y` and byte `start` of a row on: the loop that fills
-- the bounce buffer.
unfoldable pub copy_rows : List ℕ → ℕ → ℕ → ℕ → ℕ → ℕ → List ℕ
copy_rows shadow pitch start row_bytes y zero = []
copy_rows shadow pitch start row_bytes y (suc n) =
    take row_bytes (drop (y * pitch + start) shadow)
    ++ copy_rows shadow pitch start row_bytes (y + 1) n

-- The rectangle past the test of `disable_partial`.
unfoldable pub update_region :
    Compressor → Ret → Memory → Bool → Drm → ℕ → ℕ → ℕ → ℕ → Pipe → Ret × Pipe
update_region lz4 ret m bounce_ok d x y w h p =
    let pitch = d.width * 2 in
    let bounce = copy_rows d.shadow pitch (x * 2) (w * 2) y h in
    if x == 0 && (y == 0 && (w == d.width && h == d.height))
    then send_full_frame lz4 ret m (some d.shadow) d.shadow_size p
    else if w == d.width && x == 0
    then send_partial_frame lz4 ret m (some (drop (y * pitch) d.shadow)) x y w h p
    else if not bounce_ok
    then (enomem, p)
    else send_partial_frame lz4 ret m (some bounce) x y w h p

-- `mpro_drm__request_update`, for a child whose parent is there. `bounce_ok` is what the allocation
-- of the bounce buffer answers. A panel's sides are below 65536, so that `w = full_w` keeps its value.
unfoldable pub request_update :
    Compressor → Ret → Memory → Bool → Drm → ℕ → ℕ → ℕ → ℕ → Bool → Pipe → Ret × Pipe
request_update lz4 ret m bounce_ok d x y w h force p =
    if d.blanked && not force
    then (0, p)
    else if d.disable_partial
    then update_region lz4 ret m bounce_ok d 0 0 d.width d.height p
    else update_region lz4 ret m bounce_ok d x y w h p
