-- ===== src/Beada/Link/Oversize.antt =====
-- The frame limit of the parent device against the panels of the table.
use packages.Base.{ℕ, zero, suc, ◌+◌, ◌-◌, ◌*◌, ◌<◌, ◌≤◌, ◌≡◌, ◌⊎◌, ◌∷◌, arith}
use packages.Beada.Model.{ModelEntry, lookup_model, find_entry, or_fallback}
use packages.Beada.Link.Device.{piece, Link, Host, Bulk, bulk_out, check_alive}
use packages.Beada.Link.Frames.{
  max_frame_bytes, start_tag, send_pixels, after_start, pl_send, inc, count_frame, xfer_worker,
}

abbrev frame_bytes : ModelEntry → ℕ
frame_bytes e = e.width * e.height * 2

tall_lem : (n : ℕ) → n ≤ 5 → max_frame_bytes < frame_bytes (lookup_model (21 + n))
unfolding lookup_model find_entry or_fallback
tall_lem zero h = omega arith
tall_lem (suc zero) h = omega arith
tall_lem (suc (suc zero)) h = omega arith
tall_lem (suc (suc (suc zero))) h = omega arith
tall_lem (suc (suc (suc (suc zero)))) h = omega arith
tall_lem (suc (suc (suc (suc (suc zero))))) h = omega arith
tall_lem (suc (suc (suc (suc (suc (suc n)))))) h = absurd (omega arith)

worker-oversize :
    (host : Host) (tag body : Bulk) (l : Link)
    → max_frame_bytes < l.xfer_len
    → ((xfer_worker host tag body l).stats_displayed ≡ l.stats_displayed)
      × ((xfer_worker host tag body l).stats_dropped ≡ inc l.stats_dropped)
      × (((xfer_worker host tag body l).wire ≡ l.wire)
          ⊎ (((xfer_worker host tag body l).wire ≡ start_tag host l.xfer_w l.xfer_h ∷ l.wire)
              ⊎ ((xfer_worker host tag body l).wire
                  ≡ piece (start_tag host l.xfer_w l.xfer_h) tag.transferred ∷ l.wire)))
unfolding xfer_worker count_frame pl_send after_start send_pixels bulk_out check_alive
worker-oversize host tag body l h = ground arith

-- A worker that runs with a frame of any of the six panels with the codes 21 to 26 drops it,
-- whatever the device answers: at most a START tag, or a part of one, goes out, pixels never do.
pub xfer_worker-tall :
    (host : Host) (tag body : Bulk) (l : Link) (code : ℕ)
    → 21 ≤ code
    → code ≤ 26
    → l.xfer_len ≡ (lookup_model code).width * (lookup_model code).height * 2
    → ((xfer_worker host tag body l).stats_displayed ≡ l.stats_displayed)
      × ((xfer_worker host tag body l).stats_dropped ≡ inc l.stats_dropped)
      × (((xfer_worker host tag body l).wire ≡ l.wire)
          ⊎ (((xfer_worker host tag body l).wire ≡ start_tag host l.xfer_w l.xfer_h ∷ l.wire)
              ⊎ ((xfer_worker host tag body l).wire
                  ≡ piece (start_tag host l.xfer_w l.xfer_h) tag.transferred ∷ l.wire)))
xfer_worker-tall host tag body l code low high len =
    let same : 21 + (code - 21) ≡ code = omega arith in
    let big = rw same at (tall_lem (code - 21) (omega arith)) in
    worker-oversize host tag body l (rw len big)
