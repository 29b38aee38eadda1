-- ===== src/Mpro/Pipeline/Wire.antt =====
-- mpro_pipeline.c: what the device reads in the control message of a frame.
use packages.Base.{
  ℕ, ◌+◌, ◌*◌, ◌^◌, ◌<◌, ◌≡◌, true, List, arith, length, get_or, ◌||◌, if◌then◌else◌,
}
use packages.Mpro.Pipeline.Xfer.{Xfer}
use packages.Mpro.Pipeline.Submit.{command_len, xfer_submit}

-- Little-endian reads at an offset.
abbrev pub read16 : List ℕ → ℕ → ℕ
read16 bytes i = get_or bytes i 0 + 256 * get_or bytes (i + 1) 0

abbrev pub read32 : List ℕ → ℕ → ℕ
read32 bytes i = read16 bytes i + 65536 * read16 bytes (i + 2)

-- The message has the announced length, its mode says whether the frame is compressed, and its size
-- field is the length of the payload, for a payload below 4 GiB.
pub xfer_submit-size :
    (t : Xfer)
    → t.len < 2 ^ 32
    → let bytes = xfer_submit t in
      (length bytes ≡ command_len t)
      × (get_or bytes 0 0 ≡ (if t.compressed then 4 else 0))
      × (get_or bytes 1 0 ≡ 0x2c)
      × (read32 bytes 2 ≡ t.len)
unfolding xfer_submit
xfer_submit-size t h = ground arith

-- A partial or compressed frame also carries its x, y and width; the message of a compressed frame
-- is two bytes longer and carries the height there.
pub xfer_submit-region :
    (t : Xfer)
    → (t.compressed || t.partial) ≡ true
    → t.x < 65536
    → t.y < 65536
    → t.w < 65536
    → t.h < 65536
    → let bytes = xfer_submit t in
      (read16 bytes 6 ≡ t.x)
      × (read16 bytes 8 ≡ t.y)
      × (read16 bytes 10 ≡ t.w)
      × (length bytes ≡ (if t.compressed then 14 else 12))
      × (read16 bytes 12 ≡ (if t.compressed then t.h else 0))
unfolding xfer_submit
xfer_submit-region t c hx hy hw hh = ground arith
