-- ===== src/Mpro/Pipeline/Xfer.antt =====
-- mpro_pipeline.c and mpro.h: the transfer object, the pipeline's fields of the device, and the
-- release of a transfer.
use packages.Base.{
  ℕ, ◌+◌, ◌%◌, ◌^◌, Bool, false, Option, none, some, List, ◌∷◌, if◌then◌else◌, is_some,
}
use packages.Base.Int.{ℤ}
use packages.Mpro.Model.{ModelInfo}

-- The allocator that a frame's buffer came from.
pub data Origin : Type 0 where
  coherent : Origin
  kmalloc : Origin
  kvmalloc : Origin

-- `struct mpro_xfer`. `id` stands for the object's address, and `origin` for the allocator that
-- `data` came from; the code has no such field. A buffer is its bytes.
pub record Xfer : Type 0 where
  pub id : ℕ
  pub partial : Bool
  pub buffer : Option (List ℕ)
  pub origin : Origin
  pub len : ℕ
  pub dma_coherent : Bool
  pub x : ℕ
  pub y : ℕ
  pub w : ℕ
  pub h : ℕ
  pub ctrl_urb : Bool
  pub bulk_urb : Bool
  pub compressed : Bool
  pub orig_len : ℕ

-- The fields of `struct mpro_device` that the pipeline reads and writes. `allocated` counts the
-- transfers that were ever allocated and `freed` lists those that were freed, each with the
-- allocator its buffer was handed back to, the latest first: they record what the code did.
pub record Pipe : Type 0 where
  pub running : Bool
  pub in_flight : Bool
  pub current_xfer : Option Xfer
  pub pending_xfer : Option Xfer
  pub is_idle : Bool
  pub dma_dev : Bool
  pub model : Option ModelInfo
  pub fw_major : ℤ
  pub fw_minor : ℤ
  pub lz4_level : ℤ
  pub lz4_threshold : ℕ
  pub lz4_workmem : Bool
  pub stats_submitted : ℕ
  pub stats_displayed : ℕ
  pub stats_dropped : ℕ
  pub last_frame_ns : ℕ
  pub ewma_period_ns : ℕ
  pub allocated : ℕ
  pub freed : List (ℕ × Option Origin)

-- `atomic_inc` on a 32-bit counter.
abbrev pub inc : ℕ → ℕ
inc n = (n + 1) % 2 ^ 32

-- Which function `mpro_xfer_free` hands the buffer to, if there is one.
unfoldable pub release : Xfer → Option Origin
release x =
    if is_some x.buffer
    then some (if x.dma_coherent then coherent else if x.compressed then kvmalloc else kmalloc)
    else none

-- `mpro_xfer_free`; a null pointer is ignored.
unfoldable pub xfer_free : Option Xfer → Pipe → Pipe
unfolding release
xfer_free none p = p
xfer_free (some x) p = record p { freed = (x.id, release x) ∷ p.freed }

-- `mpro_io_init`.
unfoldable pub io_init : Pipe → Pipe
io_init p = record p {
  last_frame_ns = 0;
  ewma_period_ns = 0;
  in_flight = false;
  current_xfer = none;
  pending_xfer = none;
}

-- `mpro_io_shutdown` after the URBs are killed and the work is cancelled.
unfoldable pub io_shutdown : Pipe → Pipe
unfolding xfer_free
io_shutdown p =
    let q = record p { current_xfer = none; pending_xfer = none; in_flight = false } in
    xfer_free p.pending_xfer (xfer_free p.current_xfer q)
