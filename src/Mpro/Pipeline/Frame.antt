-- ===== src/Mpro/Pipeline/Frame.antt =====
-- mpro_pipeline.c: the two entry points that the DRM child calls.
use packages.Base.{
  ℕ, ◌+◌, ◌-◌, ◌*◌, ◌%◌, Bool, true, false, Option, none, some, List, ◌||◌, ◌==◌, ltb,
  if◌then◌else◌,
}
use packages.Base.Errno.{Ret, einval, enomem}
use packages.Mpro.Model.{ModelInfo}
use packages.Mpro.Pipeline.Xfer.{Xfer, Pipe}
use packages.Mpro.Pipeline.Alloc.{
  Memory, Compressor, Area, xfer_alloc, xfer_alloc_compressed, lz4_should_compress,
}
use packages.Mpro.Pipeline.Send.{send_xfer}

-- The compressed transfer, where compression is worth trying; null otherwise.
unfoldable pub try_lz4 : Compressor → Memory → List ℕ → ℕ → Area → Pipe → Option Xfer × Pipe
unfolding lz4_should_compress xfer_alloc_compressed
try_lz4 lz4 m frame len a p =
    if lz4_should_compress p len then xfer_alloc_compressed lz4 m true frame len a p else (none, p)

-- The send of what was allocated.
unfoldable pub send_got : Ret → Option Xfer × Pipe → Ret × Pipe
unfolding send_xfer
send_got ret (none, p) = (enomem, p)
send_got ret (some t, p) = send_xfer ret t p

-- The raw transfer, where no compressed one was made; then the send.
unfoldable pub send_or_raw :
    Ret → Memory → Bool → List ℕ → ℕ → Area → Option Xfer × Pipe → Ret × Pipe
unfolding xfer_alloc send_got
send_or_raw ret m partial frame len a (some t, p) = send_got ret (some t, p)
send_or_raw ret m partial frame len a (none, p) =
    send_got ret (xfer_alloc m partial (some frame) len a p)

abbrev pub full_area : Option ModelInfo → Area
full_area none = record { x = 0; y = 0; w = 0; h = 0 }
full_area (some m) = record { x = 0; y = 0; w = m.width % 65536; h = m.height % 65536 }

-- `mpro_send_full_frame`; `none` is a null pointer. `lz4` compresses, `ret` is what the submission
-- of the control URB returns. Without a model the compressed path would read through a null
-- pointer; the children exist only after the model is found.
unfoldable pub send_full_frame : Compressor → Ret → Memory → Option (List ℕ) → ℕ → Pipe → Ret × Pipe
unfolding send_or_raw try_lz4
send_full_frame lz4 ret m none len p = (einval, p)
send_full_frame lz4 ret m (some frame) len p =
    let none_area : Area = record { x = 0; y = 0; w = 0; h = 0 } in
    let first =
      if lz4_should_compress p len
      then xfer_alloc_compressed lz4 m true frame len (full_area p.model) p
      else (none, p) in
    if len == 0
    then (einval, p)
    else send_or_raw ret m false frame len none_area (try_lz4 lz4 m frame len (full_area p.model) p)

-- `mpro_send_partial_frame` past the check of its pointers.
unfoldable pub send_region :
    Compressor → Ret → Memory → ModelInfo → List ℕ → ℕ → ℕ → ℕ → ℕ → Pipe → Ret × Pipe
unfolding send_or_raw try_lz4
send_region lz4 ret m model frame x y w h p =
    let len = w * h * 2 in
    let a : Area = record { x = x; y = (model.height - 1 - (y + h)) % 65536; w = w; h = h } in
    let first =
      if lz4_should_compress p len
      then xfer_alloc_compressed lz4 m true frame len a p
      else (none, p) in
    if w == 0 || h == 0
    then (einval, p)
    else if ltb model.height (y + h + 1)
    then (einval, p)
    else send_or_raw ret m true frame len a (try_lz4 lz4 m frame len a p)

-- The check of the model and of the data pointer.
unfoldable pub send_checked :
    Compressor
    → Ret
    → Memory
    → Option ModelInfo
    → Option (List ℕ)
    → ℕ
    → ℕ
    → ℕ
    → ℕ
    → Pipe
    → Ret × Pipe
unfolding send_region
send_checked lz4 ret m none frame x y w h p = (einval, p)
send_checked lz4 ret m (some model) none x y w h p = (einval, p)
send_checked lz4 ret m (some model) (some frame) x y w h p =
    send_region lz4 ret m model frame x y w h p

-- `mpro_send_partial_frame`.
unfoldable pub send_partial_frame :
    Compressor → Ret → Memory → Option (List ℕ) → ℕ → ℕ → ℕ → ℕ → Pipe → Ret × Pipe
send_partial_frame lz4 ret m frame x y w h p = send_checked lz4 ret m p.model frame x y w h p
