-- ===== src/Beada/Tests/Link.antt =====
-- Examples of the parent device: each theorem with hypotheses, applied where they hold.
use packages.Base.{ℕ, ◌*◌, ◌%◌, ◌≡◌, ◌⊎◌, refl, true, false, List, [], ◌∷◌, arith}
use packages.Beada.Model.{lookup_model, find_entry, or_fallback}
use packages.Beada.Link.Device.{piece, Link, Host, Bulk, bulk_result}
use packages.Beada.Link.Frames.{start_tag, inc, xfer_worker, send_frame}
use packages.Beada.Link.Status.{Time}
use packages.Beada.Link.Power.{usb_suspend, usb_resume}
use packages.Beada.Link.Conversation.{IsPartial, silent}
use packages.Beada.Link.Steps.{
  IsInStep, frame, works, suspends, resumes, Run, start, more, Run-IsInStep,
}
use packages.Beada.Link.Oversize.{xfer_worker-tall}

-- A little-endian host whose format string has two bytes.
abbrev pub host : Host
host = record { big_endian = false; format = λ h w. h % 256 ∷ w % 256 ∷ [] }

-- A device after the probe, with the reply to a transfer of `n` bytes that succeeds.
abbrev pub fresh : Link
fresh = record {
  has_statuslink = true;
  disconnected = false;
  suspended = false;
  in_resume = false;
  cached_w = 0;
  cached_h = 0;
  xfer_src = [];
  xfer_len = 0;
  xfer_w = 0;
  xfer_h = 0;
  stats_submitted = 0;
  stats_displayed = 0;
  stats_dropped = 0;
  work = false;
  resume_work = false;
  autopm = 0;
  wire = [];
}

abbrev pub done : ℕ → Bulk
done n = record { ret = 0; transferred = n }

abbrev pub noon : Time
noon = record {
  year_1900 = 126;
  month = 2;
  weekday = 1;
  day = 16;
  hour = 12;
  minute = 0;
  second = 0;
  nanoseconds = 5000000;
}

pub fresh-IsInStep : IsInStep host fresh
fresh-IsInStep = record { talking = silent; sized = refl; filled = omega arith; staged = refl }

-- A frame of 2 by 1 pixels is staged and sent, the device is suspended and resumed.
abbrev red : List ℕ
red = 0 ∷ 248 ∷ 0 ∷ 248 ∷ []

abbrev staged : Link
staged = (send_frame red 4 2 1 fresh).1

staged_work : staged.work ≡ true
unfolding send_frame
staged_work = refl

abbrev sent : Link
sent = xfer_worker host (done 270) (done 4) staged

abbrev asleep : Link
asleep = usb_suspend host (done 0) (done 0) sent

abbrev awake : Link
awake = usb_resume host noon (done 20) (done 36) asleep

-- A transfer in full, and one of which nothing arrives.
pub done_whole : IsPartial (done 270) 270
unfolding bulk_result
done_whole failed = absurd (ground (arith, failed))

pub no_bytes : IsPartial (done 0) 270
no_bytes failed = omega arith

day_and_night : Run host fresh awake
day_and_night =
    more
      (more
        (more (more start (frame red 4 2 1 (omega arith)))
          (works (done 270) (done 4) staged_work (done_whole)))
        (suspends (done 0) (done 0) no_bytes))
      (resumes noon (done 20) (done 36))

Run-IsInStep_example : IsInStep host awake
Run-IsInStep_example = Run-IsInStep fresh-IsInStep day_and_night

-- A frame of the panel with the code 23, 462 by 1920.
abbrev tall : Link
tall = record fresh { xfer_src = []; xfer_len = 1774080; xfer_w = 462; xfer_h = 1920; work = true }

tall_size : tall.xfer_len ≡ (lookup_model 23).width * (lookup_model 23).height * 2
unfolding lookup_model find_entry or_fallback
tall_size = refl

xfer_worker-tall_example :
    ((xfer_worker host (done 270) (done 1774080) tall).stats_displayed ≡ 0)
    × ((xfer_worker host (done 270) (done 1774080) tall).stats_dropped ≡ inc 0)
    × (((xfer_worker host (done 270) (done 1774080) tall).wire ≡ [])
        ⊎ (((xfer_worker host (done 270) (done 1774080) tall).wire ≡ start_tag host 462 1920 ∷ [])
            ⊎ ((xfer_worker host (done 270) (done 1774080) tall).wire
                ≡ piece (start_tag host 462 1920) 270 ∷ [])))
xfer_worker-tall_example =
    xfer_worker-tall host (done 270) (done 1774080) tall 23 (omega arith) (omega arith) tall_size
