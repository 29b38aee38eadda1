-- ===== src/Mpro/Pipeline/Alloc.antt =====
-- mpro_pipeline.c: allocation of a raw and of a compressed transfer.
use packages.Base.{
  ℕ, ◌+◌, Bool, true, false, Option, none, some, List, ◌&&◌, ◌||◌, not, take, ltb, leb,
  if◌then◌else◌,
}
use packages.Base.Int.{ℤ, pos, ltb_ℤ, leb_ℤ, pos_part}
use packages.Mpro.Model.{ModelInfo}
use packages.Mpro.Pipeline.Xfer.{coherent, kmalloc, kvmalloc, Xfer, Pipe, xfer_free}

-- What the kernel's allocators answer in one call: does each of them succeed, and what bytes a
-- fresh buffer holds.
pub record Memory : Type 0 where
  pub xfer_ok : Bool
  pub coherent_ok : Bool
  pub kmalloc_ok : Bool
  pub kvmalloc_ok : Bool
  pub ctrl_ok : Bool
  pub bulk_ok : Bool
  pub stale : List ℕ

-- LZ4_compress_default and LZ4_compress_HC: from the level and the source, the returned size and
-- the bytes written.
abbrev pub Compressor : Type 0
Compressor = ℤ → List ℕ → ℤ × List ℕ

-- The rectangle that a transfer is for.
pub record Area : Type 0 where
  pub x : ℕ
  pub y : ℕ
  pub w : ℕ
  pub h : ℕ

-- The tail of both allocators: a transfer without its two URBs is freed again.
unfoldable pub with_urbs : Memory → Xfer → Pipe → Option Xfer × Pipe
unfolding xfer_free
with_urbs m t p =
    let t' = record t { ctrl_urb = m.ctrl_ok; bulk_urb = m.bulk_ok } in
    if m.ctrl_ok && m.bulk_ok then (some t', p) else (none, xfer_free (some t') p)

-- The bytes that `memcpy` leaves in the new buffer, when there is a source.
abbrev filled : Memory → Option (List ℕ) → ℕ → List ℕ
filled m (some src) len = take len src
filled m none len = m.stale

-- `mpro_xfer_alloc`: the transfer, or null, and the device.
unfoldable pub xfer_alloc : Memory → Bool → Option (List ℕ) → ℕ → Area → Pipe → Option Xfer × Pipe
unfolding xfer_free with_urbs
xfer_alloc m partial src len a p =
    let dma = p.dma_dev && m.coherent_ok in
    let q = record p { allocated = p.allocated + 1 } in
    let t : Xfer = record {
      id = p.allocated;
      partial = partial;
      buffer = if dma || m.kmalloc_ok then some (filled m src len) else none;
      origin = if dma then coherent else kmalloc;
      len = len;
      dma_coherent = dma;
      x = a.x;
      y = a.y;
      w = a.w;
      h = a.h;
      ctrl_urb = false;
      bulk_urb = false;
      compressed = false;
      orig_len = 0;
    } in
    if not m.xfer_ok
    then (none, p)
    else if dma || m.kmalloc_ok
    then with_urbs m t q
    else (none, xfer_free (some t) q)

-- `mpro_firmware_supports_lz4`; MPRO_LZ4_MIN_MAJOR is 0 and MPRO_LZ4_MIN_MINOR is 22.
unfoldable pub firmware_supports_lz4 : ℤ → ℤ → Bool
firmware_supports_lz4 major minor =
    if ltb_ℤ major (pos 0)
    then false
    else if ltb_ℤ (pos 0) major
    then true
    else leb_ℤ (pos 22) minor

abbrev pub has_margin : Option ModelInfo → Bool
has_margin none = false
has_margin (some m) = ltb 0 m.margin

-- `mpro_lz4_should_compress`.
unfoldable pub lz4_should_compress : Pipe → ℕ → Bool
unfolding firmware_supports_lz4
lz4_should_compress p len =
    if leb_ℤ p.lz4_level (pos 0)
    then false
    else if has_margin p.model
    then false
    else if not (firmware_supports_lz4 p.fw_major p.fw_minor)
    then false
    else leb p.lz4_threshold len

-- `mpro_xfer_alloc_compressed`: null when there is nothing to win.
unfoldable pub xfer_alloc_compressed :
    Compressor → Memory → Bool → List ℕ → ℕ → Area → Pipe → Option Xfer × Pipe
unfolding xfer_free with_urbs
xfer_alloc_compressed lz4 m partial src srclen a p =
    let (size, out) = lz4 p.lz4_level (take srclen src) in
    let t : Xfer = record {
      id = p.allocated;
      partial = partial;
      buffer = some out;
      origin = kvmalloc;
      len = pos_part size;
      dma_coherent = false;
      x = a.x;
      y = a.y;
      w = a.w;
      h = a.h;
      ctrl_urb = false;
      bulk_urb = false;
      compressed = true;
      orig_len = srclen;
    } in
    if leb_ℤ p.lz4_level (pos 0) || not p.lz4_workmem
    then (none, p)
    else if not m.kvmalloc_ok
    then (none, p)
    else if leb_ℤ size (pos 0) || leb_ℤ (pos srclen) size
    then (none, p)
    else if not m.xfer_ok
    then (none, p)
    else with_urbs m t (record p { allocated = p.allocated + 1 })
