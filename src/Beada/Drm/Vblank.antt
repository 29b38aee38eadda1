-- ===== src/Beada/Drm/Vblank.antt =====
-- drm/beada-drm-vblank.c and drm/beada-drm-plane.c: the software vblank, and the page-flip event of a commit
-- in the callbacks of the pipe.
use packages.Base.{
  ℕ, suc, ◌+◌, ◌-◌, ◌≡◌, Bool, true, false, List, ◌∷◌, not, ◌||◌, length, flag, if◌then◌else◌,
  arith,
}

-- What becomes of an event: it waits for the next tick, or it is sent.
pub data FlipAnswer : Type 0 where
  at_tick : FlipAnswer
  at_once : FlipAnswer

-- The vblank fields of `struct beada_drm_dev`, the event of the commit that runs, the answers to the events,
-- the latest first, and the vblank references that the driver holds itself.
pub record Vblank : Type 0 where
  pub enabled : Bool
  pub timer : Bool
  pub event : Bool
  pub answers : List FlipAnswer
  pub refs : ℕ

-- `beada_vblank_timer_cb`: does the timer go on, and the state after it.
unfoldable pub timer_cb : Vblank → Bool × Vblank
timer_cb v = if not v.enabled then (false, record v { timer = false }) else (true, v)

-- `beada_vblank_enable` and `beada_vblank_disable`.
unfoldable pub vblank_enable : Vblank → Vblank
vblank_enable v = record v { enabled = true; timer = true }

unfoldable pub vblank_disable : Vblank → Vblank
vblank_disable v = record v { enabled = false; timer = false }

-- `beada_arm_pageflip`; `got` says whether the vblank reference was there. An armed event takes it over.
unfoldable pub arm_pageflip : Bool → Vblank → Vblank
arm_pageflip got v =
    let held = record v { refs = if got then suc v.refs else v.refs } in
    let put = record v { refs = held.refs - 1 } in
    if v.event
    then if got
      then record put { event = false; answers = at_tick ∷ v.answers }
      else record v { event = false; answers = at_once ∷ v.answers }
    else if got
    then put
    else v

-- `beada_finish_pageflip`.
unfoldable pub finish_pageflip : Vblank → Vblank
finish_pageflip v = if v.event then record v { event = false; answers = at_once ∷ v.answers } else v

-- The parts of the pipe callbacks: `drm_crtc_vblank_off` disables the vblank.
unfoldable pub flips_of_enable : Vblank → Vblank
flips_of_enable v = finish_pageflip v

unfoldable pub flips_of_disable : Vblank → Vblank
flips_of_disable v = vblank_disable (finish_pageflip v)

-- `beada_pipe_update`: the early returns leave the event, all else goes on to the end.
unfoldable pub flips_of_update : Bool → Bool → Bool → Bool → Vblank → Vblank
flips_of_update has_fb active entered got v =
    if not has_fb || (not active || not entered) then v else arm_pageflip got v

-- One call. A commit brings an event when the one before is answered.
pub data Call (v : Vblank) (n : ℕ) : Vblank → ℕ → Type 0 where
  commits : v.event ≡ false → Call v n (record v { event = true }) (suc n)
  enables : Call v n (flips_of_enable v) n
  disables : Call v n (flips_of_disable v) n
  updates :
      (has_fb active entered got : Bool) → Call v n (flips_of_update has_fb active entered got v) n
  starts : Call v n (vblank_enable v) n
  stops : Call v n (vblank_disable v) n
  ticks : Call v n (timer_cb v).1 n

pub data Calls (v : Vblank) (n : ℕ) : Vblank → ℕ → Type 0 where
  no_call : Calls v n v n
  then_call : {w x : Vblank} {m l : ℕ} → Calls v n w m → Call w m x l → Calls v n x l

-- The timer runs exactly while the vblank is enabled, the driver holds no reference, and every event is to
-- be answered or was answered once.
pub record IsAnswered (v : Vblank) (n : ℕ) : Type 0 where
  pub timer : v.timer ≡ v.enabled
  pub refs : v.refs ≡ 0
  pub events : length v.answers + flag v.event ≡ n

call-IsAnswered : {v w : Vblank} {n m : ℕ} → Call v n w m → IsAnswered v n → IsAnswered w m
unfolding flips_of_enable flips_of_disable flips_of_update finish_pageflip arm_pageflip
    vblank_enable vblank_disable timer_cb
call-IsAnswered (commits idle) h = ground (arith, idle, h)
call-IsAnswered enables h = ground (arith, h)
call-IsAnswered disables h = ground (arith, h)
call-IsAnswered (updates has_fb active entered got) h = ground (arith, h)
call-IsAnswered starts h = ground (arith, h)
call-IsAnswered stops h = ground (arith, h)
call-IsAnswered ticks h = ground (arith, h)

-- Over any sequence of commits, callbacks of the pipe and ticks, from a state where it holds: the timer runs
-- exactly while the vblank is enabled, the driver holds no vblank reference between the calls, and every
-- event of a commit is still to be answered or was answered once.
pub Calls-IsAnswered :
    {v : Vblank} {n : ℕ} {w : Vblank} {m : ℕ} → IsAnswered v n → Calls v n w m → IsAnswered w m
Calls-IsAnswered h no_call = h
Calls-IsAnswered h (then_call before c) = call-IsAnswered c (Calls-IsAnswered h before)
