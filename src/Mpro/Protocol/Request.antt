-- ===== src/Mpro/Protocol/Request.antt =====
-- mpro_protocol.c: queries in three steps and commands in one.
use packages.Base.{
  ℕ, ◌+◌, ◌*◌, Bool, Option, none, some, List, [], ◌∷◌, not, ◌==◌, ◌&&◌, take, drop, get_or,
  if◌then◌else◌,
}
use packages.Base.Errno.{Ret, einval}

-- A control transfer: the vendor request and the bytes that are sent, or how many are asked for.
pub data Transfer : Type 0 where
  msg_send : ℕ → List ℕ → Transfer
  msg_recv : ℕ → ℕ → Transfer

-- MPRO_REQ_CMD, MPRO_REQ_STATUS, MPRO_REQ_READ and MPRO_CMD.
abbrev pub req_cmd : ℕ
req_cmd = 0xb5

abbrev pub req_status : ℕ
req_status = 0xb6

abbrev pub req_read : ℕ
req_read = 0xb7

abbrev pub vendor_cmd : ℕ
vendor_cmd = 0xb0

-- What the USB core answers to the three steps: the results, and the bytes in the buffer after the
-- last one.
pub record Answer : Type 0 where
  pub sent : Ret
  pub status : Ret
  pub payload : Ret
  pub bytes : List ℕ

-- `mpro_make_request`: the transfers made, the result, and what is copied to `rx`; `rxlen` is 0 for a
-- null `rx`. The delays between the steps change nothing here.
unfoldable pub make_request : Answer → List ℕ → ℕ → List Transfer × Ret × Option (List ℕ)
make_request a tx rxlen =
    let asked = msg_send req_cmd tx in
    let status = msg_recv req_status 1 in
    let read = msg_recv req_read (rxlen + 1) in
    if not (a.sent == 0)
    then (asked ∷ [], a.sent, none)
    else if rxlen == 0
    then (asked ∷ [], 0, none)
    else if not (a.status == 0)
    then (asked ∷ status ∷ [], a.status, none)
    else if not (a.payload == 0)
    then (asked ∷ status ∷ read ∷ [], a.payload, none)
    else (asked ∷ status ∷ read ∷ [], 0, some (take rxlen (drop 1 a.bytes)))

-- `le32_to_cpu` of four bytes.
abbrev pub from_le32 : List ℕ → ℕ
from_le32 bs =
    get_or bs 0 0 + 256 * get_or bs 1 0 + 65536 * get_or bs 2 0 + 16777216 * get_or bs 3 0

unfoldable pub read_u32 : List Transfer × Ret × Option (List ℕ) → Ret × Option ℕ
read_u32 (ts, ret, none) = (ret, none)
read_u32 (ts, ret, some bs) = if ret == 0 then (0, some (from_le32 bs)) else (ret, none)

-- `mpro_request_u32`: the result and what is stored in `*val`; `has_val` says that `val` is not null.
unfoldable pub request_u32 : Bool → Answer → List ℕ → Ret × Option ℕ
unfolding read_u32 make_request
request_u32 has_val a tx = if not has_val then (einval, none) else read_u32 (make_request a tx 4)

-- `mpro_send_command`: `ret` is what the transfer returns, the flags say which pointers are there.
unfoldable pub send_command : Bool → Bool → Bool → Ret → List ℕ → List Transfer × Ret
send_command has_mpro has_udev has_cmd ret cmd =
    if not (has_mpro && (has_udev && has_cmd))
    then ([], einval)
    else (msg_send vendor_cmd cmd ∷ [], ret)
