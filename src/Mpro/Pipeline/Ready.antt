-- ===== src/Mpro/Pipeline/Ready.antt =====
-- mpro_pipeline.c: what a transfer is when an allocator returns it.
use packages.Base.{ℕ, ◌<◌, ◌≡◌, Bool, true, false, Option, some, List, arith}
use packages.Mpro.Pipeline.Xfer.{Xfer, Pipe, release}
use packages.Mpro.Pipeline.Alloc.{Memory, Compressor, Area, xfer_alloc, xfer_alloc_compressed}

-- Both URBs are there, and `mpro_xfer_free` hands the buffer to the allocator it came from.
pub record IsReady (t : Xfer) : Type 0 where
  pub ctrl : t.ctrl_urb ≡ true
  pub bulk : t.bulk_urb ≡ true
  pub released : release t ≡ some t.origin

-- A raw transfer that is returned has both URBs, is freed by the allocator of its buffer, and holds
-- the area and length that were asked for; the running transfers of the device are left alone.
pub xfer_alloc-IsReady :
    (m : Memory) (partial : Bool) (src : Option (List ℕ)) (len : ℕ) (a : Area) (p : Pipe) (t : Xfer)
    → (xfer_alloc m partial src len a p).0 ≡ some t
    → IsReady t × (t.len ≡ len) × (t.compressed ≡ false) × (t.y ≡ a.y)
unfolding xfer_alloc release
xfer_alloc-IsReady m partial src len a p t h = ground arith

-- A compressed transfer that is returned is likewise freed by the right allocator, and is never
-- empty and always smaller than the frame that it stands for, whatever the compressor answers.
pub xfer_alloc_compressed-IsReady :
    (lz4 : Compressor) (m : Memory) (partial : Bool) (src : List ℕ) (len : ℕ) (a : Area) (p : Pipe)
    (t : Xfer)
    → (xfer_alloc_compressed lz4 m partial src len a p).0 ≡ some t
    → IsReady t × (0 < t.len) × (t.len < len) × (t.orig_len ≡ len) × (t.compressed ≡ true)
unfolding xfer_alloc_compressed release
xfer_alloc_compressed-IsReady lz4 m partial src len a p t h = ground arith
