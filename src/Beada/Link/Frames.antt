-- ===== src/Beada/Link/Frames.antt =====
-- beada-pipeline.c: frames. They are staged by the child and sent by the worker.
use packages.Base.{
  ℕ, ◌+◌, ◌*◌, ◌%◌, ◌^◌, true, false, some, List, not, ◌&&◌, ◌||◌, ◌==◌, ltb, take, if◌then◌else◌,
}
use packages.Base.Errno.{Ret, einval}
use packages.Beada.Checksum.{pl_fill_tag}
use packages.Beada.Link.Device.{Packet, to_panel, Link, Host, Bulk, bulk_out, check_alive}

-- PANELLINK_MAX_FRAME_BYTES.
abbrev pub max_frame_bytes : ℕ
max_frame_bytes = 1280 * 480 * 2

-- The START tag for frames of `w` by `h`: PL_TYPE_START is 1, `fmtstr` has 96 bytes.
unfoldable pub start_tag : Host → ℕ → ℕ → Packet
start_tag host w h = to_panel (pl_fill_tag host.big_endian 1 (some (take 95 (host.format h w))))

-- The end of `pl_send`: the pixels.
unfoldable pub send_pixels : Bulk → List ℕ → ℕ → Link → Ret × Link
send_pixels body buf len l =
    if ltb max_frame_bytes len then (einval, l) else bulk_out body (to_panel (take len buf)) len l

-- `pl_send` past the START tag, which returned `ret`.
unfoldable pub after_start : Bulk → List ℕ → ℕ → ℕ → ℕ → Ret × Link → Ret × Link
after_start body buf len w h (ret, l) =
    if not (ret == 0)
    then (ret, l)
    else send_pixels body buf len (record l { cached_w = w; cached_h = h })

-- `pl_send`; a tag has 270 bytes.
unfoldable pub pl_send : Host → Bulk → Bulk → List ℕ → ℕ → ℕ → ℕ → Link → Ret × Link
pl_send host tag body buf len w h l =
    if l.cached_w == 0 && l.cached_h == 0
    then after_start body buf len w h (bulk_out tag (start_tag host w h) 270 l)
    else if not (w == l.cached_w) || not (h == l.cached_h)
    then (einval, l)
    else send_pixels body buf len l

-- `atomic_inc` on a 32-bit counter.
abbrev pub inc : ℕ → ℕ
inc n = (n + 1) % 2 ^ 32

-- The statistics after a transfer that returned `ret`.
unfoldable pub count_frame : Ret × Link → Link
count_frame (ret, l) =
    if ret == 0
    then record l { stats_displayed = inc l.stats_displayed }
    else record l { stats_dropped = inc l.stats_dropped }

-- `beada_xfer_worker`, from the workqueue.
unfoldable pub xfer_worker : Host → Bulk → Bulk → Link → Link
xfer_worker host tag body queued =
    let l = record queued { work = false } in
    let alive = check_alive l in
    count_frame (
      if alive == 0
      then pl_send host tag body l.xfer_src l.xfer_len l.xfer_w l.xfer_h l
      else (alive, l))

-- `beada_send_frame`.
unfoldable pub send_frame : List ℕ → ℕ → ℕ → ℕ → Link → Ret × Link
send_frame buf len w h l =
    if w == 0 || (h == 0 || not (len == w * h * 2))
    then (einval, record l { stats_dropped = inc l.stats_dropped })
    else (
      0,
      record l {
        stats_submitted = inc l.stats_submitted;
        xfer_src = buf;
        xfer_len = len;
        xfer_w = w;
        xfer_h = h;
        work = true;
      },
    )

-- `beada_flush_frame_transfer`, and `flush_work` in the suspend: work that is queued runs now.
unfoldable pub flush_frame_transfer : Host → Bulk → Bulk → Link → Link
flush_frame_transfer host tag body l = if l.work then xfer_worker host tag body l else l
