-- ===== src/Mpro/Pipeline/Latest.antt =====
-- mpro_pipeline.c: coalescing. While a transfer is in flight the newest frame waits and older
-- waiting frames are dropped.
use packages.Base.{
  ℕ, ◌≡◌, refl, true, false, Option, none, some, List, [], ◌∷◌, ◌++◌, arith, ◌∙◌, ap,
}
use mathlib.Core.Path.{ap₂}
use packages.Mpro.Pipeline.Xfer.{Xfer, Pipe, Origin, release}
use packages.Mpro.Pipeline.Send.{submit, send_enter, submit_failed}
use packages.Mpro.Pipeline.Complete.{complete_enter}

-- Frames sent one after the other.
unfoldable pub send_all : List Xfer → Pipe → Pipe
send_all [] p = p
send_all (t ∷ ts) p = send_all ts (send_enter t p).1

-- The device takes frames and has one in flight.
pub record IsBusy (p : Pipe) : Type 0 where
  pub running : p.running ≡ true
  pub awake : p.is_idle ≡ false
  pub in_flight : p.in_flight ≡ true

abbrev pub entry : Xfer → ℕ × Option Origin
entry t = (t.id, release t)

abbrev pub displaced : Option Xfer → List (ℕ × Option Origin)
displaced none = []
displaced (some t) = entry t ∷ []

-- One frame sent to a busy device.
send_enter-IsBusy :
    (t : Xfer) (p : Pipe)
    → IsBusy p
    → IsBusy (send_enter t p).1
      × ((send_enter t p).1.pending_xfer ≡ some t)
      × ((send_enter t p).1.current_xfer ≡ p.current_xfer)
      × ((send_enter t p).1.freed ≡ displaced p.pending_xfer ++ p.freed)
unfolding send_enter
send_enter-IsBusy t p b = ground arith

-- What waits after the frames `ts`, newest last, were sent to a device where `o` waited.
abbrev pub newest : Option Xfer → List Xfer → Option Xfer
newest o [] = o
newest o (t ∷ ts) = newest (some t) ts

-- What those frames displaced, newest first.
abbrev pub older : Option Xfer → List Xfer → List (ℕ × Option Origin) → List (ℕ × Option Origin)
older o [] freed = freed
older o (t ∷ ts) freed = older (some t) ts (displaced o ++ freed)

-- Frames sent to a busy device, in any number: the last of them waits, each of the others and what
-- waited before is freed, in the order of sending, and the transfer in flight is left alone.
pub send_all-latest :
    (ts : List Xfer) (p : Pipe)
    → IsBusy p
    → ((send_all ts p).pending_xfer ≡ newest p.pending_xfer ts)
      × ((send_all ts p).freed ≡ older p.pending_xfer ts p.freed)
      × ((send_all ts p).current_xfer ≡ p.current_xfer)
      × IsBusy (send_all ts p)
unfolding send_all
send_all-latest [] p b = (refl, refl, refl, b)
send_all-latest (t ∷ ts) p b =
    let step = send_enter-IsBusy t p b in
    let rest = send_all-latest ts (send_enter t p).1 step.0 in
    (
      rest.0 ∙ ap (λ o. newest o ts) step.1,
      rest.1 ∙ ap₂ (λ o fs. older o ts fs) step.1 step.3,
      rest.2 ∙ step.2,
      rest.3,
    )

-- A submission fails while a frame `old` waits: `old` stays in the slot with nothing in flight, the
-- next frame is submitted at once, and `old` is submitted after it, when that one is complete.
pub submit_failed-overtakes :
    (p : Pipe) (t old new : Xfer)
    → IsBusy p
    → p.current_xfer ≡ some t
    → p.pending_xfer ≡ some old
    → let failed = submit_failed t p in
      let (first, sent) = send_enter new failed in
      (failed.in_flight ≡ false)
      × (failed.pending_xfer ≡ some old)
      × (first ≡ submit new)
      × ((complete_enter sent).0 ≡ some old)
unfolding submit_failed send_enter complete_enter
submit_failed-overtakes p t old new b c w = ground arith
