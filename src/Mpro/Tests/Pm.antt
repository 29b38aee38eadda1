-- ===== src/Mpro/Tests/Pm.antt =====
-- mpro_pm.c and mpro_screen.c on a concrete device.
use packages.Base.{ℕ, ◌≡◌, refl, true, false, none, arith}
use packages.Mpro.Pm.Device.{Device}
use packages.Mpro.Pm.Work.{idle_work, active_get, active_put}
use packages.Mpro.Pm.Blank.{idle_work-black_dropped}
use packages.Mpro.Pm.Trace.{
  IsSound, History, start, then, enable, disable, idle_fires, History-IsSound,
}
use packages.Mpro.Tests.Data.{device, answers}

idle_work-black_dropped_example :
    let q = (idle_work 700 answers device).pipe in
    (q.is_idle ≡ true)
    × (q.in_flight ≡ false)
    × (q.current_xfer ≡ none)
    × (q.pending_xfer ≡ none)
    × (q.stats_submitted ≡ 0)
idle_work-black_dropped_example = idle_work-black_dropped 700 answers device refl

pub device-IsSound : IsSound 100 device false
device-IsSound = record {
  refs = refl;
  armed_free = refl;
  armed_console = refl;
  wakes = omega arith;
  counts = refl;
  changed = omega arith;
  times = refl;
}

abbrev enabled : Device ℕ
enabled = (active_get 200 device).0

abbrev released : Device ℕ
released = (active_put true enabled).0

abbrev asleep : Device ℕ
asleep = idle_work 5300 answers released

abbrev again : Device ℕ
again = (active_get 9000 asleep).0

-- The pipe is enabled and disabled, the idle delay expires, the pipe is enabled again.
one_day : History device false again true
unfolding active_get active_put idle_work
one_day =
    then
      (then (then (then start (enable 200 (omega arith) refl)) disable)
        (idle_fires 5300 answers (omega arith) refl))
      (enable 9000 (omega arith) refl)

History-IsSound_example : IsSound 100 again true
History-IsSound_example = History-IsSound device-IsSound one_day
