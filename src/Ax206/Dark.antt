-- ===== src/Ax206/Dark.antt =====
-- drm/ax206-drm-plane.c, drm/ax206-drm-pm.c and bl/ax206-bl-drv.c: a pipe that is closed while the panel is
-- idle, and the backlight afterwards.
use packages.Base.{
  ℕ, ◌-◌, ◌∷◌, ◌≡◌, refl, ◌∙◌, Bool, true, false, List, [], Option, none, some, not, ◌&&◌, ◌||◌,
  ◌==◌, if-cases, arith,
}
use packages.Ax206.Screen.{Picture, Display}
use packages.Ax206.Flush.{
  Outcome, stopped, skipped, sent, mark_dirty, flush, flush_rows, empty_box, blank_panel, blit_turn,
}
use packages.Ax206.Idle.{
  Command, level, area, Panel, idle_timer_reset, idle_leave, resume_work_fn, clear_once,
  pipe_enable, pipe_disable, Commit, Clip, flush_all, draw_commit, pipe_update, blit_work,
  sent_area, bl_update_status, run_oldest, bl_work_fn, send_unblanked,
}
use packages.Base.Errno.{Ret}

-- The backlight levels among the commands.
unfoldable pub levels : List Command → List ℕ
levels [] = []
levels (level v ∷ cs) = v ∷ levels cs
levels (area b ∷ cs) = levels cs

-- The driver takes the panel for awake, and the backlight for blanked.
pub record IsDark (s : Panel) : Type 0 where
  pub awake : s.display.idle_active ≡ false
  pub blanked : s.blanked ≡ true

-- The panel is dark still, and no level was sent on the way from `s`.
pub record StaysDark (s t : Panel) : Type 0 where
  pub dark : IsDark t
  pub unsent : levels t.wire ≡ levels s.wire

-- A panel that shares the three fields with a dark one.
still :
    {s t : Panel}
    → IsDark s
    → t.display.idle_active ≡ false
    → t.blanked ≡ s.blanked
    → levels t.wire ≡ levels s.wire
    → StaysDark s t
still h awake same unsent = record {
  dark = record { awake = awake; blanked = same ∙ h.blanked };
  unsent = unsent;
}

unchanged : {s : Panel} → IsDark s → StaysDark s s
unchanged h = record { dark = h; unsent = refl }

after : {s t u : Panel} → StaysDark s t → StaysDark t u → StaysDark s u
after h k = record { dark = k.dark; unsent = k.unsent ∙ h.unsent }

timer_reset_dark : (s : Panel) → IsDark s → StaysDark s (idle_timer_reset s)
unfolding idle_timer_reset
timer_reset_dark s dark =
    if-cases (StaysDark s) s.display.idle_active (λ idle. still dark dark.awake refl refl)
      (λ awake.
        if-cases (StaysDark s) (s.idle_timeout_s == 0) (λ off. unchanged dark)
          (λ on. still dark dark.awake refl refl))

flush_keeps :
    (p : Picture) (x1 y1 x2 y2 : ℕ) (d : Display)
    → (flush p x1 y1 x2 y2 d).idle_active ≡ d.idle_active
unfolding flush mark_dirty
flush_keeps p x1 y1 x2 y2 d =
    let b = flush_rows d p (y2 - y1) (x2 - x1) x1 y1 (empty_box d) in
    if-cases (λ (e : Display). e.idle_active ≡ d.idle_active) (not b.changed) (λ same. refl)
      (λ other. refl)

flush_all_keeps :
    (p : Picture) (cs : List Clip) (d : Display) → (flush_all p cs d).idle_active ≡ d.idle_active
unfolding flush_all
flush_all_keeps p [] d = refl
flush_all_keeps p (c ∷ cs) d = flush_all_keeps p cs _ ∙ flush_keeps p c.x1 c.y1 c.x2 c.y2 d

draw_dark :
    (source : Option Picture) (c : Commit) (s : Panel)
    → IsDark s
    → StaysDark s (draw_commit source c s)
unfolding draw_commit
draw_dark none c s dark = unchanged dark
draw_dark (some p) c s dark =
    still dark
      (if-cases (λ (e : Display). e.idle_active ≡ false) c.resized
        (λ whole. flush_keeps p 0 0 _ _ s.display ∙ dark.awake)
        (λ parts. flush_all_keeps p c.damages s.display ∙ dark.awake))
      refl refl

update_dark : (c : Commit) (s : Panel) → IsDark s → StaysDark s (pipe_update c s)
unfolding pipe_update
update_dark c s dark =
    if-cases (StaysDark s) (not c.active || not c.has_fb) (λ off. unchanged dark)
      (λ on.
        let reset = timer_reset_dark s dark in
        after reset (draw_dark c.source c (idle_timer_reset s) reset.dark))

clear_dark : (s : Panel) → IsDark s → StaysDark s (clear_once s)
unfolding clear_once blank_panel
clear_dark s dark =
    if-cases (StaysDark s) (not s.cleared && s.display.connected)
      (λ first. still dark refl refl refl) (λ later. unchanged dark)

-- Both ways of waking up do nothing to a panel that is taken for awake.
leave_dark : (bd : Option ℕ) (s : Panel) → IsDark s → StaysDark s (idle_leave bd s)
unfolding idle_leave
leave_dark bd s dark =
    if-cases (StaysDark s) (not s.display.idle_active) (λ awake. unchanged dark)
      (λ idle. absurd (ground (arith, idle, dark.awake)))

enable_dark : (bd : Option ℕ) (s : Panel) → IsDark s → StaysDark s (pipe_enable bd s)
unfolding pipe_enable
enable_dark bd s dark =
    if-cases (λ t. StaysDark s (idle_timer_reset (clear_once t))) s.display.idle_active
      (λ idle. absurd (ground (arith, idle, dark.awake)))
      (λ awake.
        let cleared = clear_dark s dark in
        after cleared (timer_reset_dark (clear_once s) cleared.dark))

disable_dark : (s : Panel) → IsDark s → StaysDark s (pipe_disable s)
unfolding pipe_disable blank_panel
disable_dark s dark =
    if-cases (StaysDark s) (s.noblank || not s.display.connected)
      (λ kept. still dark dark.awake refl refl) (λ blanked. still dark refl refl refl)

turn_keeps_idle :
    (alloc_ok : Bool) (d : Display) → (blit_turn alloc_ok d).1.idle_active ≡ d.idle_active
unfolding blit_turn
turn_keeps_idle alloc_ok d = ground arith

area_unsent : (o : Outcome) (cs : List Command) → levels (sent_area o cs) ≡ levels cs
unfolding levels
area_unsent stopped cs = refl
area_unsent skipped cs = refl
area_unsent (sent b) cs = refl

blit_dark : (alloc_ok : Bool) (s : Panel) → IsDark s → StaysDark s (blit_work alloc_ok s)
unfolding blit_work
blit_dark alloc_ok s dark =
    still dark (turn_keeps_idle alloc_ok s.display ∙ dark.awake) refl
      (area_unsent (blit_turn alloc_ok s.display).0 s.wire)

status_dark :
    (alloc_ok : Bool) (v : ℕ) (s : Panel) → IsDark s → StaysDark s (bl_update_status alloc_ok v s).1
unfolding bl_update_status
status_dark alloc_ok v s dark =
    if-cases (λ (r : Ret × Panel). StaysDark s r.1) (not s.display.connected)
      (λ off. still dark dark.awake refl refl)
      (λ on.
        if-cases (λ (r : Ret × Panel). StaysDark s r.1) (not alloc_ok)
          (λ failed. still dark dark.awake refl refl) (λ queued. still dark dark.awake refl refl))

unblanked_dark : (v : ℕ) (s : Panel) → IsDark s → StaysDark s (send_unblanked v s)
unfolding send_unblanked
unblanked_dark v s dark =
    if-cases (StaysDark s) (s.display.connected && not s.blanked)
      (λ lit. absurd (ground (arith, lit, dark.blanked))) (λ held. unchanged dark)

unblanked_after :
    (v : ℕ) (vs : List ℕ) (s : Panel)
    → IsDark s
    → StaysDark s (send_unblanked v (record s { bl_works = vs }))
unblanked_after v vs s dark =
    let popped : StaysDark s (record s { bl_works = vs }) = still dark dark.awake refl refl in
    after popped (unblanked_dark v (record s { bl_works = vs }) popped.dark)

oldest_dark : (values : List ℕ) (s : Panel) → IsDark s → StaysDark s (run_oldest values s)
unfolding run_oldest
oldest_dark [] s dark = unchanged dark
oldest_dark (v ∷ vs) s dark = unblanked_after v vs s dark

-- What happens to a panel until its idle timer runs out: the pipe is enabled, disabled or updated, the
-- work items run, and the brightness is changed.
pub data Call (s : Panel) : Panel → Type 0 where
  enables : (bd : Option ℕ) → Call s (pipe_enable bd s)
  disables : Call s (pipe_disable s)
  updates : (c : Commit) → Call s (pipe_update c s)
  resumes : (bd : Option ℕ) → Call s (resume_work_fn bd s)
  blits : (alloc_ok : Bool) → Call s (blit_work alloc_ok s)
  brightens : (alloc_ok : Bool) (v : ℕ) → Call s (bl_update_status alloc_ok v s).1
  bl_runs : Call s (bl_work_fn s)

pub data Calls (s : Panel) : Panel → Type 0 where
  no_call : Calls s s
  then_call : {t u : Panel} → Calls s t → Call t u → Calls s u

call_dark : {s t : Panel} → Call s t → IsDark s → StaysDark s t
unfolding resume_work_fn bl_work_fn
call_dark {s} (enables bd) dark = enable_dark bd s dark
call_dark {s} disables dark = disable_dark s dark
call_dark {s} (updates c) dark = update_dark c s dark
call_dark {s} (resumes bd) dark =
    let popped : StaysDark s (record s { resume_queued = false }) =
      still dark dark.awake refl refl in
    after popped (leave_dark bd (record s { resume_queued = false }) popped.dark)
call_dark {s} (blits alloc_ok) dark = blit_dark alloc_ok s dark
call_dark {s} (brightens alloc_ok v) dark = status_dark alloc_ok v s dark
call_dark {s} bl_runs dark = oldest_dark s.bl_works s dark

calls_dark : {s t : Panel} → Calls s t → IsDark s → StaysDark s t
calls_dark no_call dark = unchanged dark
calls_dark (then_call before c) dark =
    let before_dark = calls_dark before dark in after before_dark (call_dark c before_dark.dark)

-- The pipe is closed while the panel is idle.
disabled :
    (s : Panel)
    → s.display.connected ≡ true
    → s.noblank ≡ false
    → s.blanked ≡ true
    → StaysDark s (pipe_disable s)
unfolding pipe_disable blank_panel
disabled s on blanks blanked =
    if-cases (StaysDark s) (s.noblank || not s.display.connected)
      (λ kept. absurd (ground (arith, kept, on, blanks)))
      (λ other. record { dark = record { awake = refl; blanked = blanked }; unsent = refl })

-- A pipe that is closed while the connected panel is idle, with noblank off, leaves the backlight off:
-- over any sequence of enabling, disabling and updating the pipe, turns of the work items and changes of
-- the brightness, no backlight level is sent, until the idle timer runs out again.
pub pipe_disable-dark :
    (s : Panel) {t : Panel}
    → s.display.connected ≡ true
    → s.noblank ≡ false
    → s.blanked ≡ true
    → Calls (pipe_disable s) t
    → levels t.wire ≡ levels s.wire
pipe_disable-dark s on blanks blanked calls =
    let closed = disabled s on blanks blanked in
    (after closed (calls_dark calls closed.dark)).unsent
