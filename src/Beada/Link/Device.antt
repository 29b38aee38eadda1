-- ===== src/Beada/Link/Device.antt =====
-- beada-priv.h and beada-usb.c: the parent's state, and one bulk transfer.
use packages.Base.{ℕ, Bool, List, ◌∷◌, not, ◌==◌, if◌then◌else◌}
use packages.Base.Errno.{Ret, eio, enodev, ehostdown}

-- What was sent to the device, by endpoint: Panel-Link or Status-Link. `piece packet n` stands for a
-- transfer that failed or was short, of which the device received the first `n` bytes, none for 0.
-- `bus_back` stands for the bus that comes back after a suspend.
pub data Packet : Type 0 where
  to_panel : List ℕ → Packet
  to_status : List ℕ → Packet
  piece : Packet → ℕ → Packet
  bus_back : Packet

-- The fields of `struct beada_mfd_dev` that transfers and power management read and write. `work`
-- and `resume_work` say that the work items are queued. `autopm` counts the references held on the
-- interface and `wire` lists what was sent to the device, the latest first: they record what the
-- code did.
pub record Link : Type 0 where
  pub has_statuslink : Bool
  pub disconnected : Bool
  pub suspended : Bool
  pub in_resume : Bool
  pub cached_w : ℕ
  pub cached_h : ℕ
  pub xfer_src : List ℕ
  pub xfer_len : ℕ
  pub xfer_w : ℕ
  pub xfer_h : ℕ
  pub stats_submitted : ℕ
  pub stats_displayed : ℕ
  pub stats_dropped : ℕ
  pub work : Bool
  pub resume_work : Bool
  pub autopm : ℕ
  pub wire : List Packet

-- What does not change while the driver runs: the byte order of the host, and what snprintf writes
-- for a format with a height and a width.
pub record Host : Type 0 where
  pub big_endian : Bool
  pub format : ℕ → ℕ → List ℕ

-- What `usb_bulk_msg` answers: its result, and how many bytes it transferred.
pub record Bulk : Type 0 where
  pub ret : Ret
  pub transferred : ℕ

-- `beada_bulk_out` and `beada_bulk_in`: a short transfer is an error.
unfoldable pub bulk_result : Bulk → ℕ → Ret
bulk_result b len = if not (b.ret == 0) then b.ret else if b.transferred == len then 0 else eio

-- `beada_bulk_out` of a packet of `len` bytes.
unfoldable pub bulk_out : Bulk → Packet → ℕ → Link → Ret × Link
bulk_out b packet len l =
    let ret = bulk_result b len in
    (ret, record l { wire = (if ret == 0 then packet else piece packet b.transferred) ∷ l.wire })

-- `beada_check_alive`.
unfoldable pub check_alive : Link → Ret
check_alive l = if l.disconnected then enodev else if l.suspended then ehostdown else 0
