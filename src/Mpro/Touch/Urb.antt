-- ===== src/Mpro/Touch/Urb.antt =====
-- kernel/mpro/src/mpro_touch.c: the interrupt URB.
use packages.Base.{ℕ, Bool, true, false, not, ◌&&◌, ◌||◌, ◌==◌, leb, if◌then◌else◌}
use packages.Base.Errno.{Ret, enodev, enomem, enoent, econnreset, eshutdown, eproto}

-- `touch_urb`, `touch_buf` and `touch_submitted` of the device; `in_host` says that the host
-- controller holds the URB, which the code reads nowhere.
pub record TouchUrb : Type 0 where
  pub urb : Bool
  pub buf : Bool
  pub submitted : Bool
  pub in_host : Bool

-- MPRO_TOUCH_PKT_SIZE.
abbrev pub packet_size : ℕ
packet_size = 14

-- The statuses after which the URB is not submitted again.
abbrev pub is_fatal : Ret → Bool
is_fatal status =
    status == enoent || (status == econnreset || (status == eshutdown || status == eproto))

-- Is the packet handed to the listeners?
unfoldable pub delivers : Ret → ℕ → Bool
delivers status actual_length = status == 0 && leb packet_size actual_length

-- `mpro_touch__irq_complete`: the host gives the URB back with a status; `ret` is what a submission
-- returns.
unfoldable pub irq_complete : Ret → Ret → TouchUrb → TouchUrb
irq_complete status ret u =
    let back = record u { in_host = false } in
    if is_fatal status
    then record back { submitted = false }
    else if not u.submitted
    then back
    else if ret == 0
    then record back { in_host = true }
    else record back { submitted = false }

-- `mpro_touch_start`.
unfoldable pub touch_start : Ret → TouchUrb → TouchUrb × Ret
touch_start ret u =
    if not u.urb
    then (u, enodev)
    else if u.submitted
    then (u, 0)
    else if ret == 0
    then (record u { submitted = true; in_host = true }, 0)
    else (record u { submitted = false }, ret)

-- `mpro_touch_stop`: `usb_kill_urb` takes the URB from the host and waits for its completion.
unfoldable pub touch_stop : TouchUrb → TouchUrb
touch_stop u =
    if not u.urb || not u.submitted then u else record u { submitted = false; in_host = false }

-- `mpro_touch_init`: do the allocations of the URB and of the buffer succeed?
unfoldable pub touch_init : Bool → Bool → TouchUrb × Ret
touch_init urb_ok buf_ok =
    let none_yet : TouchUrb = record {
      urb = false;
      buf = false;
      submitted = false;
      in_host = false;
    } in
    if not urb_ok
    then (none_yet, enomem)
    else if not buf_ok
    then (none_yet, enomem)
    else (record none_yet { urb = true; buf = true }, 0)

-- `mpro_touch_shutdown`.
unfoldable pub touch_shutdown : TouchUrb → TouchUrb
unfolding touch_stop
touch_shutdown u = record (touch_stop u) { urb = false; buf = false }
