-- ===== src/Ax206/Stats.antt =====
-- drm/ax206-drm-stats.c and drm/ax206-drm-plane.c: the statistics, and what a turn of the blit worker counts.
use packages.Base.{
  ℕ, suc, ◌+◌, ◌-◌, ◌/◌, ◌%◌, ◌^◌, ◌≤◌, ◌<◌, ◌≡◌, ◌⊎◌, refl, Bool, not, ◌&&◌, ◌||◌, ◌==◌, ltb, leb,
  flag, if◌then◌else◌, arith,
}
use packages.Base.Errno.{Ret}
use packages.Ax206.Screen.{Display}

-- `struct ax206_stats`.
pub record Stats : Type 0 where
  pub frames_received : ℕ
  pub frames_drawn : ℕ
  pub frames_skipped : ℕ
  pub frames_error : ℕ
  pub fps_ewma : ℕ
  pub last_frame_time : ℕ

-- `ax206_stats_init` and `ax206_stats_reset`.
abbrev pub no_stats : Stats
no_stats = record {
  frames_received = 0;
  frames_drawn = 0;
  frames_skipped = 0;
  frames_error = 0;
  fps_ewma = 0;
  last_frame_time = 0;
}

-- A counter of 64 bits.
abbrev inc64 : ℕ → ℕ
inc64 n = (n + 1) % 2 ^ 64

-- The average with a new sample; both are 32 bits.
unfoldable pub average : ℕ → ℕ → ℕ
average ewma sample = if ewma == 0 then sample else (ewma - ewma / 8 + sample / 8) % 2 ^ 32

-- Frames in 1000 seconds at the time between two frames in nanoseconds.
abbrev pub sample_of : ℕ → ℕ
sample_of delta = 1000000000000 / delta % 2 ^ 32

-- `_update_fps`; the clock does not go back.
unfoldable pub update_fps : ℕ → Stats → Stats
update_fps now s =
    let delta = now - s.last_frame_time in
    let timed = record s { last_frame_time = now } in
    if s.last_frame_time == 0
    then timed
    else if delta == 0
    then timed
    else record timed { fps_ewma = average s.fps_ewma (sample_of delta) }

-- `ax206_stats_frame_received`, `_drawn`, `_skipped` and `_error`.
unfoldable pub frame_received : ℕ → Stats → Stats
frame_received now s = update_fps now (record s { frames_received = inc64 s.frames_received })

abbrev pub frame_drawn : Stats → Stats
frame_drawn s = record s { frames_drawn = inc64 s.frames_drawn }

abbrev pub frame_skipped : Stats → Stats
frame_skipped s = record s { frames_skipped = inc64 s.frames_skipped }

abbrev pub frame_error : Stats → Stats
frame_error s = record s { frames_error = inc64 s.frames_error }

-- Is the dirty rectangle sent?
abbrev pub sends : Display → Bool
sends d =
    not (d.idle_active || not d.connected)
    && not (
        leb d.dirty_x1 d.dirty_x0
        || (leb d.dirty_y1 d.dirty_y0 || (ltb d.width d.dirty_x1 || ltb d.height d.dirty_y1)))

-- The calls of a turn of `ax206_drm_blit_work_fn` that finds something dirty.
unfoldable pub count_turn : ℕ → Bool → Ret → Display → Stats → Stats
count_turn now alloc_ok ret d s =
    let taken = frame_received now s in
    if not (sends d)
    then frame_skipped s
    else if not alloc_ok
    then frame_error s
    else if not (ret == 0)
    then frame_error taken
    else frame_drawn taken

-- Turns of the worker on dirty displays: how many, and in how many the allocation failed.
pub data Turns : Stats → ℕ → ℕ → Type 0 where
  no_turn : Turns no_stats 0 0
  then_turn :
      {s : Stats} {n a : ℕ} (now : ℕ) (alloc_ok : Bool) (ret : Ret) (d : Display)
      → Turns s n a
      → Turns (count_turn now alloc_ok ret d s) (suc n) (a + flag (sends d && not alloc_ok))

-- The counters of `n` turns with `a` failed allocations.
record IsCounted (s : Stats) (n a : ℕ) : Type 0 where
  turns : (s.frames_drawn + s.frames_error + s.frames_skipped) % 2 ^ 64 ≡ n % 2 ^ 64
  frames : (s.frames_received + a) % 2 ^ 64 ≡ (s.frames_drawn + s.frames_error) % 2 ^ 64

record IsSameCount (s t : Stats) : Type 0 where
  received : t.frames_received ≡ s.frames_received
  drawn : t.frames_drawn ≡ s.frames_drawn
  skipped : t.frames_skipped ≡ s.frames_skipped
  error : t.frames_error ≡ s.frames_error

update_fps-IsSameCount : (now : ℕ) (s : Stats) → IsSameCount s (update_fps now s)
unfolding update_fps
update_fps-IsSameCount now s = ground arith

turn-IsCounted :
    (now : ℕ) (alloc_ok : Bool) (ret : Ret) (d : Display) (s : Stats) (n a : ℕ)
    → IsCounted s n a
    → IsCounted (count_turn now alloc_ok ret d s) (suc n) (a + flag (sends d && not alloc_ok))
unfolding count_turn frame_received
turn-IsCounted now alloc_ok ret d s n a h =
    let same =
      update_fps-IsSameCount now (record s { frames_received = inc64 s.frames_received }) in
    ground (arith, h, same)

counted : {s : Stats} {n a : ℕ} → Turns s n a → IsCounted s n a
counted no_turn = record { turns = refl; frames = refl }
counted (then_turn {s} {n} {a} now alloc_ok ret d before) =
    turn-IsCounted now alloc_ok ret d s n a (counted before)

-- After any turns of the worker on dirty displays, the frames drawn, the errors and the frames skipped are as
-- many as the turns, and the frames received with the failed allocations as many as the frames drawn with the
-- errors, both modulo 2^64.
pub Turns-counts :
    {s : Stats} {n a : ℕ}
    → Turns s n a
    → ((s.frames_drawn + s.frames_error + s.frames_skipped) % 2 ^ 64 ≡ n % 2 ^ 64)
      × ((s.frames_received + a) % 2 ^ 64 ≡ (s.frames_drawn + s.frames_error) % 2 ^ 64)
Turns-counts turns = let h = counted turns in (h.turns, h.frames)

-- The average never leaves the range of the samples.
pub average-between :
    (ewma sample lo hi : ℕ)
    → (ewma ≡ 0) ⊎ ((lo ≤ ewma) × (ewma ≤ hi))
    → lo ≤ sample
    → sample ≤ hi
    → hi < 2 ^ 32
    → (lo ≤ average ewma sample) × (average ewma sample ≤ hi)
unfolding average
average-between ewma sample lo hi h low high fits = ground (arith, h, low, high, fits)
